-- ===== src/Proxy/Destination.antt =====
-- src/dstaddr.rs: the address that a redirected connection was made to, from getsockopt. The call
-- itself is a parameter, the memory that it fills a function of the offset.
use mongoproxy.Prelude.{
  ℕ, ◌+◌, ◌*◌, ◌/◌, ◌%◌, ◌^◌, ◌≤◌, ◌<◌, ◌≡◌, refl, ap, Bool, true, false, Option, none, some, List,
  [], ◌∷◌, ltb, ge→ltb, ◌==◌, if◌then◌else◌, Bool-cases, inl, inr, arith,
}
use mongoproxy.Io.{Error, invalid_input, Result, ok, err, out_of_fuel}

pub record SockaddrStorage : Type 0 where
  pub ss_family : ℕ
  pub memory : ℕ → ℕ

-- std::net::SocketAddr: octets and port, or segments, port, flow label and scope.
pub data Destination : Type 0 where
  destination_v4 : ℕ → ℕ → ℕ → ℕ → ℕ → Destination
  destination_v6 : List ℕ → ℕ → ℕ → ℕ → Destination

-- A number at an offset, in the order of the host: little-endian or big-endian.
abbrev pub load16 : Bool → SockaddrStorage → ℕ → ℕ
load16 true s o = s.memory o + 256 * s.memory (o + 1)
load16 false s o = s.memory (o + 1) + 256 * s.memory o

abbrev pub load32 : Bool → SockaddrStorage → ℕ → ℕ
load32 true s o = load16 true s o + 65536 * load16 true s (o + 2)
load32 false s o = load16 false s (o + 2) + 65536 * load16 false s o

-- u16::from_be and u32::from_be swap the bytes on a little-endian host
abbrev pub ntoh16 : Bool → ℕ → ℕ
ntoh16 true i = 256 * (i % 256) + i / 256
ntoh16 false i = i

abbrev pub ntoh32 : Bool → ℕ → ℕ
ntoh32 true i = 65536 * ntoh16 true (i % 65536) + ntoh16 true (i / 65536)
ntoh32 false i = i

-- `(arr[i] as u16) << 8 | (arr[i + 1] as u16)`, with the address at the offset 8
abbrev pub segment : SockaddrStorage → ℕ → ℕ
segment s i = 256 * s.memory (8 + i) + s.memory (9 + i)

abbrev pub invalid_argument : Error
invalid_argument = record { kind = invalid_input; message = "invalid argument" }

abbrev pub mk_addr_v4 : Bool → SockaddrStorage → Destination
mk_addr_v4 little s =
    let bits = ntoh32 little (load32 little s 4) in
    destination_v4 (bits / 2 ^ 24 % 256) (bits / 2 ^ 16 % 256) (bits / 2 ^ 8 % 256) (bits % 256)
      (ntoh16 little (load16 little s 2))

abbrev pub mk_addr_v6 : Bool → SockaddrStorage → Destination
mk_addr_v6 little s =
    destination_v6
      (segment s 0
        ∷ segment s 2
        ∷ segment s 4
        ∷ segment s 6
        ∷ segment s 8
        ∷ segment s 10
        ∷ segment s 12
        ∷ segment s 14
        ∷ [])
      (ntoh16 little (load16 little s 2)) (load32 little s 4) (load32 little s 24)

-- AF_INET is 2, AF_INET6 10; `none` is a failed assertion on the length.
pub mk_addr : Bool → SockaddrStorage → ℕ → Option (Result Destination)
mk_addr little s len =
    if s.ss_family == 2
    then (if ltb len 16 then none else some (ok (mk_addr_v4 little s)))
    else if s.ss_family == 10
    then (if ltb len 28 then none else some (ok (mk_addr_v6 little s)))
    else some (err invalid_argument)

-- what getsockopt comes back with: an error, or the memory and its length
pub so_original_dst : Bool → Result (SockaddrStorage × ℕ) → Option (Result Destination)
unfolding mk_addr
so_original_dst little (ok (sockaddr, socklen)) = mk_addr little sockaddr socklen
so_original_dst little (err e) = some (err e)
so_original_dst little out_of_fuel = some out_of_fuel

result_ok : Result Destination → Option Destination
result_ok (ok a) = some a
result_ok (err e) = none
result_ok out_of_fuel = none

-- The inner `none` is the code's, the outer one a panic.
pub orig_dst_addr : Bool → Result (SockaddrStorage × ℕ) → Option (Option Destination)
unfolding so_original_dst result_ok
orig_dst_addr little r = elim (so_original_dst little r) [
  | none ↦ none
  | some a ↦ some (result_ok a)
]

ntoh16-load16 :
    (little : Bool) (s : SockaddrStorage) (o : ℕ)
    → ((i : ℕ) → s.memory i < 256)
    → ntoh16 little (load16 little s o) ≡ 256 * s.memory o + s.memory (o + 1)
ntoh16-load16 true s o h = omega (arith, h o, h (o + 1))
ntoh16-load16 false s o h = omega arith

ntoh32-load32 :
    (little : Bool) (s : SockaddrStorage) (o : ℕ)
    → ((i : ℕ) → s.memory i < 256)
    → ntoh32 little (load32 little s o)
      ≡ 65536 * (256 * s.memory o + s.memory (o + 1))
        + (256 * s.memory (o + 2) + s.memory (o + 2 + 1))
ntoh32-load32 true s o h = omega (arith, h o, h (o + 1), h (o + 2), h (o + 2 + 1))
ntoh32-load32 false s o h = omega arith

module _ (little : Bool) (s : SockaddrStorage) (len : ℕ) where
  mk_addr-v4 :
      (s.ss_family == 2) ≡ true
      → ltb len 16 ≡ false
      → mk_addr little s len ≡ some (ok (mk_addr_v4 little s))
  unfolding mk_addr
  mk_addr-v4 e long = rw (e, long) refl

  mk_addr-v6 :
      (s.ss_family == 2) ≡ false
      → (s.ss_family == 10) ≡ true
      → ltb len 28 ≡ false
      → mk_addr little s len ≡ some (ok (mk_addr_v6 little s))
  unfolding mk_addr
  mk_addr-v6 e f long = rw (e, f, long) refl

  mk_addr-other :
      (s.ss_family == 2) ≡ false
      → (s.ss_family == 10) ≡ false
      → mk_addr little s len ≡ some (err invalid_argument)
  unfolding mk_addr
  mk_addr-other e f = rw (e, f) refl

-- If the answer of getsockopt has 28 bytes at least, then on a host of either byte order there is
-- no panic, the address of an IPv4 connection is the four bytes of the answer in their order and
-- the port its two bytes in network order, an IPv6 address is its eight pairs of bytes, and a
-- family that is neither is no address.
pub orig_dst_addr-network_order :
    (little : Bool) (s : SockaddrStorage) (len : ℕ)
    → ((i : ℕ) → s.memory i < 256)
    → 28 ≤ len
    → orig_dst_addr little (ok (s, len))
      ≡ some (
          if s.ss_family == 2
          then some (
              destination_v4
                (s.memory 4)
                (s.memory 5)
                (s.memory 6)
                (s.memory 7)
                (256 * s.memory 2 + s.memory 3))
          else if s.ss_family == 10
          then some (
              destination_v6
                (segment s 0
                  ∷ segment s 2
                  ∷ segment s 4
                  ∷ segment s 6
                  ∷ segment s 8
                  ∷ segment s 10
                  ∷ segment s 12
                  ∷ segment s 14
                  ∷ [])
                (256 * s.memory 2 + s.memory 3)
                (load32 little s 4)
                (load32 little s 24))
          else none)
unfolding orig_dst_addr so_original_dst result_ok
orig_dst_addr-network_order little s len h le =
    let port = ntoh16-load16 little s 2 h in
    let bits = ntoh32-load32 little s 4 h in
    let b0 : (65536 * (256 * s.memory 4 + s.memory 5) + (256 * s.memory 6 + s.memory 7))
          / 2 ^ 24
          % 256
        ≡ s.memory 4 =
      omega (arith, h 4, h 5, h 6, h 7) in
    let b1 : (65536 * (256 * s.memory 4 + s.memory 5) + (256 * s.memory 6 + s.memory 7))
          / 2 ^ 16
          % 256
        ≡ s.memory 5 =
      omega (arith, h 4, h 5, h 6, h 7) in
    let b2 : (65536 * (256 * s.memory 4 + s.memory 5) + (256 * s.memory 6 + s.memory 7))
          / 2 ^ 8
          % 256
        ≡ s.memory 6 =
      omega (arith, h 4, h 5, h 6, h 7) in
    let b3 : (65536 * (256 * s.memory 4 + s.memory 5) + (256 * s.memory 6 + s.memory 7)) % 256
        ≡ s.memory 7 =
      omega (arith, h 4, h 5, h 6, h 7) in
    let long4 : ltb len 16 ≡ false = ge→ltb len 16 (omega (arith, le)) in
    let long6 : ltb len 28 ≡ false = ge→ltb len 28 le in
    let v4 : mk_addr_v4 little s
        ≡ destination_v4 (s.memory 4) (s.memory 5) (s.memory 6) (s.memory 7)
            (256 * s.memory 2 + s.memory 3) =
      rw (bits, port, b0, b1, b2, b3) refl in
    elim (Bool-cases (s.ss_family == 2)) [
      | inl e ↦
          rw e (rw (mk_addr-v4 little s len e long4, orig_dst_addr) (ap (λ a. some (some a)) v4))
      | inr e ↦ elim (Bool-cases (s.ss_family == 10)) [
        | inl f ↦ rw (e, f) (rw (mk_addr-v6 little s len e f long6, orig_dst_addr) (rw port refl))
        | inr f ↦ rw (e, f) (rw (mk_addr-other little s len e f, orig_dst_addr) refl)
      ]
    ]
