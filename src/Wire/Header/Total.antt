-- ===== src/Wire/Header/Total.antt =====
-- src/mongodb.rs, `MsgHeader::from_reader`: it returns on every stream, and takes sixteen bytes.
use mongoproxy.Io.{Source}
use mongoproxy.Io.ByteIo.{ByteIo}
use mongoproxy.Io.Reads.{
  TakesAt, TakesAt-pure, TakesAt-bind, TakesAt-read_u32_le, Reads, Reads-pure, ReadsAt-bind,
  Reads-read_u32_le,
}
use mongoproxy.Wire.Header.{from_reader}

module _ (io : ByteIo) where
  pub header-Reads : Reads (from_reader io)
  unfolding from_reader
  header-Reads s = ReadsAt-bind io.read_u32_le _ s (Reads-read_u32_le io s) λ message_length _.
      ReadsAt-bind io.read_u32_le _ _ (Reads-read_u32_le io _) λ request_id _.
        ReadsAt-bind io.read_u32_le _ _ (Reads-read_u32_le io _) λ response_to _.
          ReadsAt-bind io.read_u32_le _ _ (Reads-read_u32_le io _) λ op_code _. Reads-pure _ _

  -- A header that is read took sixteen bytes.
  pub header-TakesAt : (s : Source) → TakesAt 16 (from_reader io) s
  unfolding from_reader
  header-TakesAt s =
      TakesAt-bind 4 12 io.read_u32_le _ s (TakesAt-read_u32_le io s) λ message_length.
        TakesAt-bind 4 8 io.read_u32_le _ _ (TakesAt-read_u32_le io _) λ request_id.
          TakesAt-bind 4 4 io.read_u32_le _ _ (TakesAt-read_u32_le io _) λ response_to.
            TakesAt-bind 4 0 io.read_u32_le _ _ (TakesAt-read_u32_le io _)
              λ op_code. TakesAt-pure _ _
