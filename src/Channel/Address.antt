-- ===== src/Channel/Address.antt =====
-- The address that the server registers is the one that the channel connects to.
use xrpc.Base.{
  ℕ, suc, ◌+◌, ◌≡◌, refl, false, some, List, [], ◌∷◌, ◌++◌, Bytes, drop, length, ok, ◌>>=◌, ◌==◌,
  All, append-nil, take-length_append,
}
use native.Mathlib.Numerals.{add-one}
use xrpc.Base.Int.{ℤ, IsInt32}
use xrpc.Base.Decimal.{find_byte, to_string}
use xrpc.Base.Decimal.RoundTrip.{stoi-to_string}
use xrpc.Channel.{first_address, endpoint}

-- No colon, as in an IPv4 address.
abbrev pub NoColon : Bytes → Type 0
NoColon ip = All (λ c. (c == b':') ≡ false) ip

find_byte-colon :
    (ip rest : Bytes) → NoColon ip → find_byte b':' (ip ++ b':' ∷ rest) ≡ some (length ip)
unfolding find_byte
find_byte-colon [] rest h = refl
find_byte-colon (c ∷ ip) rest h = rw (h.0, find_byte-colon ip rest h.1)

drop_past : (ip : Bytes) (c : ℕ) (rest : Bytes) → drop (length ip + 1) (ip ++ c ∷ rest) ≡ rest
drop_past ip c rest = rw add-one (past ip)
  where
    past : (ip : Bytes) → drop (suc (length ip)) (ip ++ c ∷ rest) ≡ rest
    past [] = refl
    past (d ∷ ip) = past ip

first_address-colon :
    (ip rest : Bytes) (others : List Bytes)
    → NoColon ip
    → first_address ((ip ++ b':' ∷ rest) ∷ others) ≡ ok (ip ++ b':' ∷ rest)
unfolding first_address
first_address-colon ip rest others plain = rw (find_byte-colon ip rest plain, first_address)

-- `ip:port`, with the port as `std::to_string` writes it, passes the check of `GetServiceAddress`
-- and is taken apart into `ip` and `port` again.
pub endpoint-to_string :
    (ip : Bytes) (port : ℤ) (others : List Bytes)
    → NoColon ip
    → IsInt32 port
    → (first_address ((ip ++ b':' ∷ to_string port) ∷ others) >>= endpoint) ≡ ok (ip, port)
unfolding endpoint
endpoint-to_string ip port others plain fits =
    rw (first_address-colon ip (to_string port) others plain) (
      rw (find_byte-colon ip (to_string port) plain, endpoint)
        (rw (
          drop_past ip b':' (to_string port),
          take-length_append ip (b':' ∷ to_string port),
          rw append-nil at (stoi-to_string port [] fits tt),
        )))
