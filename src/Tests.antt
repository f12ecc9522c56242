-- ===== src/Tests.antt =====
-- A dictionary and a sub-dictionary in use, and the theorems of the database on them.
mod Serve
mod Start
mod Load
mod Web
mod Locks
use mathlib.Core.Option.{or_else}
use nodare_db_dev.Prelude.{
  Bytes, List, Option, Returns, [], arith, bit_and, bytes_eq, get_or, get_or-replicate, none, ok,
  refl, replicate, some, suc, zero, ℕ, ◌<◌, ◌∙◌, ◌∷◌, ◌≡◌, ◌≢◌, ◌≤◌,
}
use nodare_db_dev.Database.Dick.{XDick, dick_del, dick_get, new_xdick}
use nodare_db_dev.Database.Dick.Methods.{dick_del_lem, dick_get_lem, missing_error, or_nil}
use nodare_db_dev.Database.Dick.Valid.{DickWrites, IsDick, dick_view}
use nodare_db_dev.Database.Entry.{Chain, DickEntry, Value, count, lookup, str}
use nodare_db_dev.Database.Hashing.{HashLib, HashMode, hash_fnv64a, hasher}
use nodare_db_dev.Database.Modes.{new_xdick-replies}
use nodare_db_dev.Database.Refines.{
  Models, Request, del_key, dick_replies, dick_replies-map, get_key, map_replies, set_key, value,
}
use nodare_db_dev.Database.Sub.{SubDick, expand_if_needed, get, new_sub_dick, rehash}
use nodare_db_dev.Database.Sub.Buckets.{entries, fresh_table, replicate-IsTable}
use nodare_db_dev.Database.Sub.Ends.{rehash_steps, rehash_steps-ends}
use nodare_db_dev.Database.Sub.Expand.{expand_if_needed-Keeps}
use nodare_db_dev.Database.Sub.Move.{pure_hash}
use nodare_db_dev.Database.Sub.Rehash.{rehash-Keeps}
use nodare_db_dev.Database.Sub.Search.{Found, get-Found}
use nodare_db_dev.Database.Sub.Valid.{IsSub, Keeps, new_sub_dick-IsSub, view}
use nodare_db_dev.Prelude.Bits.{bit_and-le}

-- A hash function for the runs: the first byte.
abbrev pub code : Bytes → ℕ
code [] = 0
code (c ∷ s) = c

abbrev pub key_a : Bytes
key_a = 97 ∷ []

abbrev pub key_b : Bytes
key_b = 98 ∷ []

abbrev pub text_x : Bytes
text_x = 120 ∷ []

abbrev entry_a : DickEntry
entry_a = record { key = key_a; value = str text_x }

-- One entry in a main table of one bucket, in the course of a rehash to two buckets.
abbrev busy_sub : SubDick
busy_sub = record {
  main_dick = record { table = (entry_a ∷ []) ∷ []; size = 1; sizemask = 0; used = 1 };
  rehashing_table = fresh_table 2;
  rehashidx = some 0;
}

home_zero : (q : Bytes) → bit_and (code q) 0 ≡ 0
home_zero q = omega (arith, bit_and-le (code q) 0)

past_one : (q : Bytes) (i : ℕ) → 0 ≢ i → count q (get_or ((entry_a ∷ []) ∷ []) i []) ≡ 0
unfolding get_or count
past_one q zero ne = absurd (ne refl)
past_one q (suc i) ne = refl

count_a : (q : Bytes) → count q (entry_a ∷ []) ≤ 1
unfolding count
count_a q = ground arith

busy_sub-IsSub : IsSub code 1 busy_sub
busy_sub-IsSub = record {
  main = record {
    width = refl;
    mask = refl;
    counted = unfold entries in refl;
    placed = λ q i ne. past_one q i (λ e. ne (home_zero q ∙ e));
  };
  second = replicate-IsTable code 2;
  once = λ q.
      rw (home_zero q, get_or-replicate {A = Chain} 2 (bit_and (code q) 1) [])
        (unfold get_or count in omega (arith, count_a q));
  few = omega arith;
  small = omega arith;
  idle = λ e. absurd (cc);
  busy = λ r e. (omega arith, omega arith, λ i lt. absurd (ground arith));
}

has_a : view code busy_sub key_a ≡ some (str text_x)
unfolding view lookup bytes_eq get_or or_else
has_a = refl

has_no_b : view code busy_sub key_b ≡ none
unfolding view lookup bytes_eq get_or or_else replicate
has_no_b = refl

rehash-Keeps_example : Returns (rehash (pure_hash code) 1 busy_sub) (Keeps code 1 busy_sub)
rehash-Keeps_example = rehash-Keeps code 1 1 busy_sub busy_sub-IsSub

rehash_steps-ends_example :
    Returns
      (rehash_steps (pure_hash code) 2 busy_sub)
      λ t. Keeps code 1 busy_sub t × (t.rehashidx ≡ none)
rehash_steps-ends_example = rehash_steps-ends code 1 busy_sub busy_sub-IsSub

expand_if_needed-Keeps_example :
    Keeps code 1 busy_sub (expand_if_needed busy_sub)
    × (0 < (expand_if_needed busy_sub).main_dick.size)
expand_if_needed-Keeps_example = expand_if_needed-Keeps code busy_sub busy_sub-IsSub

get-Found_example : Returns (get (pure_hash code) busy_sub key_a) (Found code busy_sub key_a)
get-Found_example = get-Found code {n = 1} busy_sub key_a busy_sub-IsSub

-- A dictionary of two sub-dictionaries, the one of key "a" in the course of a rehash.
abbrev pub busy_dick : XDick
busy_dick = record { sub_dicks = new_sub_dick ∷ busy_sub ∷ []; sub_count = 2 }

both_sound : (i : ℕ) → i < 2 → IsSub code 1 (get_or (new_sub_dick ∷ busy_sub ∷ []) i new_sub_dick)
unfolding get_or
both_sound zero lt = new_sub_dick-IsSub code 1 (omega arith)
both_sound (suc zero) lt = busy_sub-IsSub
both_sound (suc (suc i)) lt = absurd (omega arith)

busy_dick-IsDick : IsDick code code 1 busy_dick
busy_dick-IsDick = record { width = refl; some_sub = omega arith; subs = both_sound }

abbrev pub busy_map : Bytes → Option Value
busy_map = dick_view code code busy_dick

pub busy_dick-Models : Models code code 1 busy_map busy_dick
busy_dick-Models = record { valid = busy_dick-IsDick; reads = λ q. refl }

dick_get_lem_example :
    dick_get (pure_hash code) code busy_dick key_a
    ≡ ok (or_nil (dick_view code code busy_dick key_a))
dick_get_lem_example = dick_get_lem code code {n = 1} busy_dick key_a busy_dick-IsDick

dick_del_lem_example : Returns (dick_del (pure_hash code) code busy_dick key_a) λ p.
    DickWrites code code 1 busy_dick key_a none p.0
    × (p.1 ≡ missing_error (dick_view code code busy_dick key_a))
dick_del_lem_example = dick_del_lem code code {n = 1} busy_dick key_a busy_dick-IsDick (omega arith)

abbrev pub requests : List Request
requests = get_key key_a ∷ set_key key_b (str text_x) ∷ del_key key_a ∷ get_key key_a ∷ []

dick_replies-map_example :
    dick_replies (pure_hash code) code busy_dick requests ≡ ok (map_replies busy_map requests)
dick_replies-map_example =
    dick_replies-map code code {n = 1} busy_map busy_dick requests busy_dick-Models (omega arith)

-- A package of hash functions, which all take the first byte.
abbrev pub short_hashes : HashLib
short_hashes = record { siphash = λ k0 k1 s. code s; fnv_32a = code; fnv_64a = code }

abbrev pub fnv_mode : HashMode
fnv_mode = record { hasher_mode = hash_fnv64a; key0 = 0; key1 = 0 }

new_xdick-replies_example :
    dick_replies (hasher short_hashes fnv_mode) code (new_xdick 100) requests
    ≡ ok (map_replies (λ q. none) requests)
new_xdick-replies_example =
    new_xdick-replies short_hashes fnv_mode code 100 requests (omega arith) (omega arith)
      (omega arith) (omega arith)

abbrev always_a : ℕ → ℕ
always_a i = 0

abbrev always_b : ℕ → ℕ
always_b i = 1
