-- ===== src/Server/Recorder.antt =====
-- The responseRecorder of internal/httpapi/middleware.go, and the level of RequestLogger. What the
-- underlying writer gets is the list of the calls that are passed on to it.
use headnet.Base.{
  ℕ, ◌+◌, ◌≡◌, refl, ◌∙◌, Bool, true, false, not, ◌&&◌, List, [], ◌∷◌, ◌++◌, ltb, leb, ◌==◌,
  if◌then◌else◌, All,
}

-- A call of a http.ResponseWriter. A write has the number of bytes that the writer takes.
pub data Call : Type 0 where
  write_header : ℕ → Call
  write : List ℕ → ℕ → Call

pub record Recorder : Type 0 where
  pub status : ℕ
  pub written : ℕ
  pub wrote_header : Bool
  pub passed_on : List Call

-- The recorder that RequestLogger makes.
abbrev pub new_recorder : Recorder
new_recorder = record { status = 200; written = 0; wrote_header = false; passed_on = [] }

-- responseRecorder.WriteHeader
unfoldable pub record_header : ℕ → Recorder → Recorder
record_header status r = if r.wrote_header then r else record r {
  wrote_header = true;
  status = status;
  passed_on = r.passed_on ++ write_header status ∷ [];
}

-- responseRecorder.Write
unfoldable pub record_write : List ℕ → ℕ → Recorder → Recorder
unfolding record_header
record_write bytes n r =
    let begun = (if not r.wrote_header then record_header 200 r else r) in
    record begun { written = begun.written + n; passed_on = begun.passed_on ++ write bytes n ∷ [] }

unfoldable pub record_call : Call → Recorder → Recorder
unfolding record_header record_write
record_call (write_header status) r = record_header status r
record_call (write bytes n) r = record_write bytes n r

unfoldable pub record_calls : List Call → Recorder → Recorder
unfolding record_call
record_calls [] r = r
record_calls (call ∷ calls) r = record_calls calls (record_call call r)

pub data Level : Type 0 where
  info_level warn_level error_level : Level

-- The level at which RequestLogger writes its record.
unfoldable pub record_level : ℕ → Level
record_level status =
    if leb 500 status then error_level else if leb 400 status then warn_level else info_level

-- A status that net/http sends ahead of the one of the answer.
abbrev pub is_informational : ℕ → Bool
is_informational status = leb 100 status && ltb status 200 && not (status == 101)

-- The status of the answer that net/http sends for some calls: the first one that is not
-- informational, where a write or the end of the handler stands for 200.
unfoldable pub sent_status : List Call → ℕ
sent_status [] = 200
sent_status (write_header status ∷ calls) =
    let later = sent_status calls in if is_informational status then later else status
sent_status (write bytes n ∷ calls) = 200

abbrev pub sends_ahead : Call → Bool
sends_ahead (write_header status) = is_informational status
sends_ahead (write bytes n) = false

-- A recorder whose header is written.
abbrev begun : ℕ → ℕ → Call → List Call → Recorder
begun status written first rest = record {
  status = status;
  written = written;
  wrote_header = true;
  passed_on = first ∷ rest;
}

-- What is recorded and what is sent once the header is written.
abbrev Stands : ℕ → Call → Recorder → Type 0
Stands status first r = (r.status ≡ status) × (sent_status r.passed_on ≡ sent_status (first ∷ []))

begun-Stands :
    (calls : List Call) (status written : ℕ) (first : Call) (rest : List Call)
    → sends_ahead first ≡ false
    → Stands status first (record_calls calls (begun status written first rest))
unfolding record_calls record_call record_header record_write sent_status
begun-Stands [] status written (write_header s) rest last = (refl, rw last refl)
begun-Stands [] status written (write bytes n) rest last = (refl, refl)
begun-Stands (write_header s ∷ calls) status written first rest last =
    begun-Stands calls status written first rest last
begun-Stands (write bytes n ∷ calls) status written first rest last =
    begun-Stands calls status (written + n) first (rest ++ write bytes n ∷ []) last

-- When a handler sends no informational status, the status that RequestLogger records is the one
-- that net/http sends for the calls of the handler, and the calls that the recorder passes on make
-- it send the same.
pub record_calls-sent_status :
    (calls : List Call)
    → All (λ (c : Call). sends_ahead c ≡ false) calls
    → ((record_calls calls new_recorder).status ≡ sent_status calls)
      × (sent_status (record_calls calls new_recorder).passed_on ≡ sent_status calls)
unfolding record_calls record_call record_header record_write sent_status
record_calls-sent_status [] final = (refl, refl)
record_calls-sent_status (write_header s ∷ calls) (last, final) =
    let (status_is, sent_is) = begun-Stands calls s 0 (write_header s) [] last in
    let alone : sent_status (write_header s ∷ []) ≡ s = rw last refl in
    rw last (status_is, sent_is ∙ alone)
record_calls-sent_status (write bytes n ∷ calls) (last, final) =
    begun-Stands calls 200 (0 + n) (write_header 200) (write bytes n ∷ []) refl
