-- ===== src/Wire/Header.antt =====
-- src/mongodb.rs, `MsgHeader`: the sixteen bytes in front of every message.
pub mod RoundTrip
pub mod Total
use mongoproxy.Prelude.{ℕ, ◌%◌, ◌^◌, List}
use mongoproxy.Io.{Reader, pure, ◌>>=◌}
use mongoproxy.Io.ByteIo.{ByteIo}

abbrev pub header_length : ℕ
header_length = 16

pub record MsgHeader : Type 0 where
  pub message_length : ℕ
  pub request_id : ℕ
  pub response_to : ℕ
  pub op_code : ℕ

-- MsgHeader::new
abbrev pub new : MsgHeader
new = record { message_length = 0; request_id = 0; response_to = 0; op_code = 0 }

module _ (io : ByteIo) where
  open io use {read_u32_le, write_u32}

  unfoldable pub from_reader : Reader MsgHeader
  from_reader = do
    message_length ← read_u32_le
    request_id ← read_u32_le
    response_to ← read_u32_le
    op_code ← read_u32_le
    pure (record {
      message_length = message_length;
      request_id = request_id;
      response_to = response_to;
      op_code = op_code;
    })

  -- `self.message_length as u32` keeps the low 32 bits
  pub write : MsgHeader → List ℕ → List ℕ
  write hdr writer =
      let b1 = write_u32 writer (hdr.message_length % 2 ^ 32) in
      let b2 = write_u32 b1 hdr.request_id in
      let b3 = write_u32 b2 hdr.response_to in write_u32 b3 hdr.op_code
