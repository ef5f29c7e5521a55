-- ===== src/Protocol.antt =====
-- src/request_msg.rs: the text protocol between client and server.
pub mod Words
pub mod Trim
pub mod Base64
pub mod Request
pub mod RequestLaws
pub mod Response
pub mod Notice
pub mod NoticeLaws
pub mod Marshal
pub mod ResponseLaws
pub mod ResponseLine
pub mod EmptyValue
pub mod Debug
pub mod Tests
use nkv.Base.{Text, String, literal, List, [], ◌∷◌}
use nkv.Errors.{Result, ok, err, SerializingError, missing}

-- A parser returns an error or, where the source has `expect`, panics.
pub data Failure : Type 0 where
  failed : SerializingError → Failure
  panic : Failure

abbrev pub Parsed {ℓ} : Type ℓ → Type ℓ
Parsed A = Result A Failure

-- `parts.next().ok_or(SerializingError::Missing(what))?`
abbrev pub next_part : String → List Text → Parsed (Text × List Text)
next_part what [] = err (failed (missing (literal what)))
next_part what (part ∷ parts) = ok (part, parts)
