-- ===== src/Server/Listen/Listed.antt =====
-- server/socket.go, `NewSocketHandler`: the addresses that the setting allows.
use nodare_db_dev.Prelude.{
  All, Bool, Bool-cases, Bytes, List, Option, [], ap, append-nil, append_assoc, arith, bytes_eq,
  false, if◌then◌else◌, inl, inr, none, refl, some, true, ◌++◌, ◌==◌, ◌||◌, ◌∙◌, ◌∷◌, ◌≡◌, ◌≢◌,
}
use nodare_db_dev.Server.Access.{Acl, is_allowed, is_allowed-set_acl, set_acl, setup_acl}
use nodare_db_dev.Server.Listen.{allow_all, comma, socket_acl, split_comma}

-- A list of addresses as the setting has it.
unfoldable pub join_comma : List Bytes → Bytes
join_comma [] = []
join_comma (ip ∷ []) = ip
join_comma (ip ∷ other ∷ ips) = ip ++ comma ∷ join_comma (other ∷ ips)

unfoldable pub listed : Bytes → List Bytes → Bool
listed q [] = false
listed q (ip ∷ ips) = bytes_eq ip q || listed q ips

-- What `DefaultACL` says of an address: the first entry of the list that has it, if there is one.
unfoldable pub entry_of : Bytes → Acl → Option Bool
entry_of q [] = none
entry_of q ((ip, b) ∷ m) = if bytes_eq ip q then some b else entry_of q m

abbrev pub is_marked : Option Bool → Bool
is_marked none = false
is_marked (some b) = b

-- `DefaultACL`, where it is set, allows the address.
abbrev pub default_allows : Option Acl → Bytes → Bool
default_allows none q = false
default_allows (some m) q = is_marked (entry_of q m)

-- An address without a comma.
abbrev pub IsAddress : Bytes → Type 0
IsAddress s = All (λ c. (c == comma) ≡ false) s

pub split_comma-end : (acc ip : Bytes) → IsAddress ip → split_comma acc ip ≡ (acc ++ ip) ∷ []
unfolding split_comma
split_comma-end acc [] all = rw append-nil refl
split_comma-end acc (c ∷ ip) all =
    rw (all.0) (split_comma-end (acc ++ c ∷ []) ip all.1 ∙ rw append_assoc refl)

pub split_comma-part :
    (acc ip rest : Bytes)
    → IsAddress ip
    → split_comma acc (ip ++ comma ∷ rest) ≡ (acc ++ ip) ∷ split_comma [] rest
unfolding split_comma
split_comma-part acc [] rest all = rw append-nil refl
split_comma-part acc (c ∷ ip) rest all =
    rw (all.0) (split_comma-part (acc ++ c ∷ []) ip rest all.1 ∙ rw append_assoc refl)

split_comma-join :
    (ip : Bytes) (ips : List Bytes)
    → All IsAddress (ip ∷ ips)
    → split_comma [] (join_comma (ip ∷ ips)) ≡ ip ∷ ips
unfolding join_comma
split_comma-join ip [] all = split_comma-end [] ip all.0
split_comma-join ip (other ∷ ips) all =
    split_comma-part [] ip (join_comma (other ∷ ips)) all.0
    ∙ ap (λ t. ip ∷ t) (split_comma-join other ips all.1)

allow_all-listed :
    (m : Acl) (ips : List Bytes) (q : Bytes)
    → is_allowed (allow_all m ips) q ≡ listed q ips || is_allowed m q
unfolding allow_all listed
allow_all-listed m [] q = refl
allow_all-listed m (ip ∷ ips) q =
    allow_all-listed (set_acl m ip true) ips q ∙ ground (arith, is_allowed-set_acl m ip q true)

is_allowed-entry_of : (m : Acl) (q : Bytes) → is_allowed m q ≡ is_marked (entry_of q m)
unfolding is_allowed entry_of
is_allowed-entry_of [] q = refl
is_allowed-entry_of ((ip, b) ∷ m) q = elim (Bool-cases (bytes_eq ip q)) [
  | inl e ↦ rw e refl
  | inr e ↦ rw e (is_allowed-entry_of m q)
]

setup_acl-default_allows :
    (default_acl : Option Acl) (q : Bytes)
    → is_allowed (setup_acl none default_acl) q ≡ default_allows default_acl q
unfolding setup_acl is_allowed
setup_acl-default_allows none q = refl
setup_acl-default_allows (some m) q = is_allowed-entry_of m q

socket_acl-split :
    (default_acl : Option Acl) (s : Bytes)
    → s ≢ []
    → socket_acl default_acl s ≡ allow_all (setup_acl none default_acl) (split_comma [] s)
unfolding socket_acl
socket_acl-split default_acl [] ne = absurd (ne refl)
socket_acl-split default_acl (c ∷ s) ne = refl

-- The access list from a setting of addresses without commas, joined by commas and not empty,
-- allows exactly those addresses and the ones whose entry in `DefaultACL`, where that is set, is
-- true.
pub socket_acl-listed :
    (default_acl : Option Acl) (ip : Bytes) (ips : List Bytes) (q : Bytes)
    → All IsAddress (ip ∷ ips)
    → join_comma (ip ∷ ips) ≢ []
    → is_allowed (socket_acl default_acl (join_comma (ip ∷ ips))) q
      ≡ (listed q (ip ∷ ips) || default_allows default_acl q)
socket_acl-listed default_acl ip ips q all ne =
    ap (λ m. is_allowed m q)
      (socket_acl-split default_acl _ ne
        ∙ ap (λ t. allow_all (setup_acl none default_acl) t) (split_comma-join ip ips all))
    ∙ (allow_all-listed (setup_acl none default_acl) (ip ∷ ips) q
        ∙ ap (λ b. listed q (ip ∷ ips) || b) (setup_acl-default_allows default_acl q))
