-- ===== src/Proxy/Address.antt =====
-- src/main.rs, `parse_proxy_addresses` and `format_client_address`: texts of addresses.
use mongoproxy.Prelude.{
  ℕ, ◌≡◌, ◌≢◌, refl, ap, Option, none, some, [], ◌∷◌, ◌++◌, append_assoc, All, All-append, length,
  take, drop, arith, ◌≤◌, ◌<◌,
}
use mongoproxy.Prelude.Text.{Text, text, to_string, to_string-digits, find}
use mongoproxy.Io.{Result, ok}

abbrev pub IsPlain : ℕ → Type 0
IsPlain b = b ≢ 58

-- `split_at`, and `[1..]` behind it
split_local : Text → Option ℕ → Result (Text × Text)
split_local proxy_def none = ok (text "0.0.0.0:" ++ proxy_def, [])
split_local proxy_def (some pos) =
    ok (text "0.0.0.0:" ++ take pos proxy_def, drop 1 (drop pos proxy_def))

pub parse_proxy_addresses : Text → Result (Text × Text)
unfolding split_local
parse_proxy_addresses proxy_def = split_local proxy_def (find 58 proxy_def)

-- std::net::SocketAddr. An IPv6 address stands with its canonical text, which has a colon.
pub data SocketAddr : Type 0 where
  v4 : ℕ → ℕ → ℕ → ℕ → ℕ → SocketAddr
  v6 : Text → ℕ → SocketAddr

abbrev pub quad : ℕ → ℕ → ℕ → ℕ → Text
quad a b c d = to_string a ++ 46 ∷ (to_string b ++ 46 ∷ (to_string c ++ 46 ∷ to_string d))

-- its Display
abbrev pub display : SocketAddr → Text
display (v4 a b c d port) = quad a b c d ++ 58 ∷ to_string port
display (v6 groups port) = 91 ∷ (groups ++ 93 ∷ 58 ∷ to_string port)

-- `split_off` leaves what stands before the position
cut_at : Text → Option ℕ → Text
cut_at addr_str none = addr_str
cut_at addr_str (some pos) = take pos addr_str

pub format_client_address : SocketAddr → Text
unfolding cut_at
format_client_address sockaddr = cut_at (display sockaddr) (find 58 (display sockaddr))

find-plain : (s : Text) → All IsPlain s → find 58 s ≡ none
unfolding find
find-plain [] h = refl
find-plain (b ∷ s) h = ground (arith, h.0, find-plain s h.1)

find-first : (s t : Text) → All IsPlain s → find 58 (s ++ 58 ∷ t) ≡ some (length s)
unfolding find
find-first [] t h = refl
find-first (b ∷ s) t h = ground (arith, h.0, find-first s t h.1)

take-length : (s t : Text) → take (length s) (s ++ t) ≡ s
take-length [] t = refl
take-length (b ∷ s) t = ap (◌∷◌ b) (take-length s t)

drop-length : (s t : Text) → drop (length s) (s ++ t) ≡ t
drop-length [] t = refl
drop-length (b ∷ s) t = drop-length s t

-- A definition is cut at its first colon, if it has one: what stands before is the local port, on
-- all interfaces, and what stands behind is the remote address, with any further colons of it.
pub parse_proxy_addresses-parts :
    (local remote : Text)
    → All IsPlain local
    → (parse_proxy_addresses local ≡ ok (text "0.0.0.0:" ++ local, []))
      × (parse_proxy_addresses (local ++ 58 ∷ remote) ≡ ok (text "0.0.0.0:" ++ local, remote))
unfolding parse_proxy_addresses split_local
parse_proxy_addresses-parts local remote h =
    (rw (find-plain local h), rw (find-first local remote h) (rw (take-length, drop-length)))

cut_at_first : (s t : Text) → All IsPlain s → cut_at (s ++ 58 ∷ t) (find 58 (s ++ 58 ∷ t)) ≡ s
unfolding cut_at
cut_at_first s t h = rw (find-first s t h) (take-length s (58 ∷ t))

abbrev IsDigit : ℕ → Type 0
IsDigit b = (48 ≤ b) × (b < 58)

digits-IsPlain : (s : Text) → All IsDigit s → All IsPlain s
digits-IsPlain [] h = tt
digits-IsPlain (b ∷ s) h = (λ e. omega (arith, e, h.0), digits-IsPlain s h.1)

to_string-IsPlain : (n : ℕ) → All IsPlain (to_string n)
to_string-IsPlain n = digits-IsPlain (to_string n) (to_string-digits n)

dot-ne-colon : IsPlain 46
dot-ne-colon e = omega (arith, e)

quad-IsPlain : (a b c d : ℕ) → All IsPlain (quad a b c d)
quad-IsPlain a b c d = All-append IsPlain (to_string a) _ (to_string-IsPlain a) (
  dot-ne-colon,
  All-append IsPlain (to_string b) _ (to_string-IsPlain b) (
    dot-ne-colon,
    All-append IsPlain (to_string c) _ (to_string-IsPlain c) (dot-ne-colon, to_string-IsPlain d),
  ),
)

-- The label of an IPv4 client is its address without the port; the label of an IPv6 client is a
-- bracket and the first group of its address.
pub format_client_address-parts :
    (a b c d port : ℕ) (group more : Text)
    → All IsPlain group
    → (format_client_address (v4 a b c d port) ≡ quad a b c d)
      × (format_client_address (v6 (group ++ 58 ∷ more) port) ≡ 91 ∷ group)
unfolding format_client_address
format_client_address-parts a b c d port group more h = (
  cut_at_first (quad a b c d) (to_string port) (quad-IsPlain a b c d),
  rw append_assoc
      (cut_at_first (91 ∷ group) (more ++ 93 ∷ 58 ∷ to_string port) ((λ e. omega (arith, e)), h)),
)
