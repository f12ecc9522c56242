-- ===== src/Database/Sub/Change.antt =====
-- `Set` and `Del` of one sub-dictionary: through a pointer that `get` returned, by `add`, by `del`.
use mathlib.Core.Option.{or_else}
use nodare_db_dev.Prelude.{Bytes, arith, bytes_eq, false, none, some, true, ℕ, ◌+◌, ◌<◌, ◌^◌, ◌≡◌}
use nodare_db_dev.Database.Entry.{DickEntry, count, lookup, lookup-eq-none}
use nodare_db_dev.Database.Sub.{SubDick, is_rehashing}
use nodare_db_dev.Database.Sub.Buckets.{bucket}
use nodare_db_dev.Database.Sub.Edit.{Writes}
use nodare_db_dev.Database.Sub.Move.{count-push, lookup-push, push, push-IsTable}
use nodare_db_dev.Database.Sub.Valid.{IsSub, absent_at, idle_of, rehashing_of, view}

module _ (h : Bytes → ℕ) where
  -- A new entry at the front of its bucket in the target table.
  pub push_main-Writes :
      {n : ℕ} (s : SubDick) (e : DickEntry) (v : IsSub h n s) (pos : 0 < s.main_dick.size)
      → n + 1 < 2 ^ 63
      → is_rehashing s ≡ false
      → view h s e.key ≡ none
      → Writes h (n + 1) s e.key (some e.value) (record s { main_dick = push h v.main pos e })
  unfolding view or_else
  push_main-Writes s e v pos small idle absent = record {
    valid = record {
      main = push-IsTable h v.main pos e (omega (arith, v.few, v.small));
      second = v.second;
      once = λ q. rw (count-push h v.main pos e q) (ground (arith, v.once q, at_key q));
      few = omega (arith, v.few);
      small = small;
      idle = v.idle;
      busy = λ r p. absurd (cc (idle_of s idle));
    };
    reads = λ q. rw (lookup-push h v.main pos e q) (ground arith);
  }
    where
      at_key :
          (q : Bytes)
          → bytes_eq e.key q ≡ true
          → count q (bucket h s.main_dick q) + count q (bucket h s.rehashing_table q) ≡ 0
      at_key q p = absent_at h s e.key q absent p

  pub push_second-Writes :
      {n : ℕ} (s : SubDick) (e : DickEntry) (v : IsSub h n s) (pos : 0 < s.rehashing_table.size)
      → n + 1 < 2 ^ 63
      → is_rehashing s ≡ true
      → view h s e.key ≡ none
      → Writes h
          (n + 1)
          s
          e.key
          (some e.value)
          (record s { rehashing_table = push h v.second pos e })
  unfolding view or_else
  push_second-Writes s e v pos small busy absent = record {
    valid = record {
      main = v.main;
      second = push-IsTable h v.second pos e (omega (arith, v.few, v.small));
      once = λ q. rw (count-push h v.second pos e q) (ground (arith, v.once q, at_key q));
      few = omega (arith, v.few);
      small = small;
      idle = λ p. absurd (cc (rehashing_of s busy).1);
      busy = v.busy;
    };
    reads = λ q. rw (lookup-push h v.second pos e q) (ground (arith, missing_main q));
  }
    where
      at_key :
          (q : Bytes)
          → bytes_eq e.key q ≡ true
          → count q (bucket h s.main_dick q) + count q (bucket h s.rehashing_table q) ≡ 0
      at_key q p = absent_at h s e.key q absent p

      missing_main :
          (q : Bytes) → bytes_eq e.key q ≡ true → lookup q (bucket h s.main_dick q) ≡ none
      missing_main q p = lookup-eq-none q _ (omega (arith, at_key q p))
