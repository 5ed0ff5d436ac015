-- ===== src/Auth/Tokens.antt =====
-- internal/auth/session.go: NewToken. What it draws is an argument of the operations that call it,
-- `none` where the random source fails.
use headnet.Base.{Option, none, some}
use headnet.Text.{Text}
use headnet.Storage.{Result, ok, err, entropy_failed}

-- NewToken
abbrev pub from_entropy : Option Text → Result Text
from_entropy none = err entropy_failed
from_entropy (some token) = ok token
