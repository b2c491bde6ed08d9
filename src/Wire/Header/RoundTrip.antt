-- ===== src/Wire/Header/RoundTrip.antt =====
-- Headers that are written are read back.
use mongoproxy.Prelude.{ℕ, ◌<◌, ◌%◌, ◌^◌, ◌≡◌, List, [], ◌++◌, append_assoc, arith}
use mongoproxy.Io.{err, ok, Source, bytes, ◌>>=◌}
use mongoproxy.Io.ByteIo.{ByteIo}
use mongoproxy.Io.ByteIo.Encodings.{bytes-append_rest, read_u32_le-bytes}
use mongoproxy.Io.Streams.{eof, read_exact, read_le, le_bytes}
use mongoproxy.Wire.Header.{MsgHeader, from_reader, write}

-- The four fields of a u32 header.
pub record IsWord (hdr : MsgHeader) : Type 0 where
  pub message_length_fits : hdr.message_length < 2 ^ 32
  pub request_id_fits : hdr.request_id < 2 ^ 32
  pub response_to_fits : hdr.response_to < 2 ^ 32
  pub op_code_fits : hdr.op_code < 2 ^ 32

abbrev pub header_bytes : MsgHeader → List ℕ
header_bytes hdr =
    le_bytes 4 hdr.message_length
    ++ (le_bytes 4 hdr.request_id ++ (le_bytes 4 hdr.response_to ++ le_bytes 4 hdr.op_code))

module _ (io : ByteIo) where
  pub from_reader-header_bytes :
      (hdr : MsgHeader) (rest : Source)
      → IsWord hdr
      → from_reader io (bytes (header_bytes hdr) ++ rest) ≡ (ok hdr, rest)
  unfolding from_reader
  from_reader-header_bytes hdr rest h = simp (
    bytes-append_rest,
    read_u32_le-bytes io hdr.message_length _ h.message_length_fits,
    read_u32_le-bytes io hdr.request_id _ h.request_id_fits,
    read_u32_le-bytes io hdr.response_to _ h.response_to_fits,
    read_u32_le-bytes io hdr.op_code _ h.op_code_fits,
  )

  write-append :
      (hdr : MsgHeader) (buf : List ℕ)
      → write io hdr buf
        ≡ buf ++ header_bytes (record hdr { message_length = hdr.message_length % 2 ^ 32 })
  unfolding write
  write-append hdr buf = simp (io.write_u32_lem, append_assoc)

  -- A header whose last three fields are 32-bit numbers is read back from the bytes that `write`
  -- makes, with the low 32 bits of its length, and what stands behind it is left.
  pub from_reader-write :
      (hdr : MsgHeader) (rest : Source)
      → hdr.request_id < 2 ^ 32
      → hdr.response_to < 2 ^ 32
      → hdr.op_code < 2 ^ 32
      → from_reader io (bytes (write io hdr []) ++ rest)
        ≡ (ok (record hdr { message_length = hdr.message_length % 2 ^ 32 }), rest)
  from_reader-write hdr rest h1 h2 h3 = rw write-append (
      from_reader-header_bytes (record hdr { message_length = hdr.message_length % 2 ^ 32 }) rest
        (omega arith))

  -- At the end of the stream there is no header.
  pub from_reader-nil : from_reader io [] ≡ (err eof, [])
  unfolding from_reader read_le read_exact
  from_reader-nil = rw (io.read_u32_le_lem, ◌>>=◌)
