-- ===== src/Codec.antt =====
-- util/codec: the order-preserving encodings of keys and numbers. A Go function that returns a
-- value and an error returns a `Result` here, with a constructor of `DecodeError` for each message.
pub mod Bytes
pub mod Number

pub data DecodeError : Type 0 where
  insufficient invalid invalid_marker invalid_padding : DecodeError

pub data Result {ℓ} (A : Type ℓ) : Type ℓ where
  ok : A → Result A
  err : DecodeError → Result A
