-- ===== src/Message.antt =====
-- `Message` of src/request_msg.rs: what a subscriber receives.
use nkv.Base.{Text}
use nkv.Storage.{Bytes}

pub data Message : Type 0 where
  hello not_found : Message
  update : Text → Bytes → Message
  close : Text → Message
