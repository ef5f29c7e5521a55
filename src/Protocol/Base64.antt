-- ===== src/Protocol/Base64.antt =====
-- The crate `base64`, as far as src/request_msg.rs uses it: an engine with the behaviour that RFC
-- 4648 documents.
use nkv.Base.{Text, ◌≡◌, Option, some, []}
use nkv.Storage.{Bytes}
use nkv.Protocol.Words.{IsSolid}

pub record Base64 : Type 0 where
  pub encode : Bytes → Text
  pub decode : Text → Option Bytes
  pub decode-encode : (bytes : Bytes) → decode (encode bytes) ≡ some bytes
  pub encode_nil : encode [] ≡ []
  -- No character of the alphabet is whitespace.
  pub encode-IsSolid : (bytes : Bytes) → IsSolid (encode bytes)
