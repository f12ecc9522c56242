-- ===== src/Server/Config/Envs.antt =====
-- server/configuration.go: the environment over the settings.
use nodare_db_dev.Prelude.{
  Bool, Bool-cases, Bytes, List, Option, [], arith, bytes_eq, bytes_eq_iff, false, if◌then◌else◌,
  inl, inr, none, refl, some, sym, true, ℕ, ◌||◌, ◌∙◌, ◌∷◌, ◌≡◌,
}
use nodare_db_dev.Logger.{get_loglevel}
use nodare_db_dev.Server.Config.{
  Setting, Viper, ViperLaws, read_configs_from_envs, take_env, text_value, to_upper,
}
use nodare_db_dev.Server.Keys.{
  Key, env_loglevel, env_of, env_of-loglevel, key_eq, key_eq_sound, log_loglevel,
}

unfoldable pub has_key : Key → List Key → Bool
has_key j [] = false
has_key j (k ∷ order) = key_eq k j || has_key j order

-- What a variable's text sets: the log level's is taken in upper case.
unfoldable pub env_text : (Bytes → Bytes) → Key → Bytes → Bytes
env_text other k s = if bytes_eq (env_of k) env_loglevel then to_upper other s else s

abbrev pub env_setting : (Bytes → Bytes) → Key → Option Bytes → Option Setting
env_setting other k none = none
env_setting other k (some s) = some (text_value (env_text other k s))

-- The setting with the environment over it.
abbrev pub overlay : Option Setting → Option Setting → Option Setting
overlay none old = old
overlay (some x) old = some x

abbrev pub level_of : (Bytes → Bytes) → Option Bytes → Option ℕ → Option ℕ
level_of other none level = level
level_of other (some s) level = get_loglevel (to_upper other s)

module _ {V : Type 0} (lib : Viper V) (laws : ViperLaws lib) (env : Bytes → Option Bytes) where
  take_env-value :
      (k j : Key) (o : Option Bytes) (v : V) (level : Option ℕ)
      → lib.get_value (take_env lib k o (v, level)).0 j ≡ (
          if key_eq k j
          then overlay (env_setting lib.upper_other k o) (lib.get_value v j)
          else lib.get_value v j)
  unfolding env_text
  take_env-value k j none v level = ground arith
  take_env-value k j (some s) v level = elim (Bool-cases (bytes_eq (env_of k) env_loglevel)) [
    | inl e ↦ rw e (laws.value-set_value v k j (text_value (to_upper lib.upper_other s)))
    | inr e ↦ rw e (laws.value-set_value v k j (text_value s))
  ]

  overlay_twice :
      (new old : Option Setting) (again : Bool)
      → (if again then overlay new (overlay new old) else overlay new old) ≡ overlay new old
  overlay_twice none old true = refl
  overlay_twice none old false = refl
  overlay_twice (some x) old true = refl
  overlay_twice (some x) old false = refl

  read_envs-value :
      (order : List Key) (j : Key) (v : V) (level : Option ℕ)
      → lib.get_value (read_configs_from_envs lib env order (v, level)).0 j ≡ (
          if has_key j order
          then overlay (env_setting lib.upper_other j (env (env_of j))) (lib.get_value v j)
          else lib.get_value v j)
  unfolding read_configs_from_envs has_key
  read_envs-value [] j v level = refl
  read_envs-value (k ∷ order) j v level =
      let c = take_env lib k (env (env_of k)) (v, level) in
      read_envs-value order j c.0 c.1 ∙ (elim (Bool-cases (key_eq k j)) [
        | inl e ↦
            let same = key_eq_sound k j e in
            rw (take_env-value k j (env (env_of k)) v level, e, same)
              (overlay_twice (env_setting lib.upper_other j (env (env_of j))) (lib.get_value v j)
                (has_key j order))
        | inr e ↦ rw (take_env-value k j (env (env_of k)) v level, e) refl
      ])

  -- A key that is visited reads as its variable where that is set, and else as before.
  pub read_configs_from_envs-value :
      (order : List Key) (v : V) (level : Option ℕ) (j : Key)
      → has_key j order ≡ true
      → lib.get_value (read_configs_from_envs lib env order (v, level)).0 j
        ≡ overlay (env_setting lib.upper_other j (env (env_of j))) (lib.get_value v j)
  read_configs_from_envs-value order v level j has = read_envs-value order j v level ∙ rw has refl

  take_env-level :
      (k : Key) (o : Option Bytes) (v : V) (level : Option ℕ)
      → (take_env lib k o (v, level)).1
        ≡ (if key_eq k log_loglevel then level_of lib.upper_other o level else level)
  take_env-level k none v level = ground arith
  take_env-level k (some s) v level =
      rw (env_of-loglevel k)
        (elim (Bool-cases (key_eq k log_loglevel)) [ inl e ↦ rw e refl | inr e ↦ rw e refl ])

  level_of_twice :
      (o : Option Bytes) (level : Option ℕ) (again : Bool)
      → (if again
          then level_of lib.upper_other o (level_of lib.upper_other o level)
          else level_of lib.upper_other o level)
        ≡ level_of lib.upper_other o level
  level_of_twice none level true = refl
  level_of_twice none level false = refl
  level_of_twice (some s) level true = refl
  level_of_twice (some s) level false = refl

  read_envs-level :
      (order : List Key) (v : V) (level : Option ℕ)
      → (read_configs_from_envs lib env order (v, level)).1 ≡ (
          if has_key log_loglevel order
          then level_of lib.upper_other (env env_loglevel) level
          else level)
  unfolding read_configs_from_envs has_key
  read_envs-level [] v level = refl
  read_envs-level (k ∷ order) v level =
      let c = take_env lib k (env (env_of k)) (v, level) in
      read_envs-level order c.0 c.1 ∙ (elim (Bool-cases (key_eq k log_loglevel)) [
        | inl e ↦
            let name = (bytes_eq_iff (env_of k) env_loglevel).0 (env_of-loglevel k ∙ e) in
            rw (take_env-level k (env (env_of k)) v level, e, name)
              (level_of_twice (env env_loglevel) level (has_key log_loglevel order))
        | inr e ↦ rw (take_env-level k (env (env_of k)) v level, e) refl
      ])

  -- The log level is the one of LOGLEVEL where that is set.
  pub read_configs_from_envs-level :
      (order : List Key) (v : V) (level : Option ℕ)
      → has_key log_loglevel order ≡ true
      → (read_configs_from_envs lib env order (v, level)).1
        ≡ level_of lib.upper_other (env env_loglevel) level
  read_configs_from_envs-level order v level has = read_envs-level order v level ∙ rw has refl

  -- Two orders in which the range visits every key give the same value to every key, and the same
  -- log level.
  pub read_configs_from_envs-order :
      (order other : List Key) (c : V × Option ℕ)
      → ((k : Key) → has_key k order ≡ true)
      → ((k : Key) → has_key k other ≡ true)
      → ((k : Key)
          → lib.get_value (read_configs_from_envs lib env order c).0 k
            ≡ lib.get_value (read_configs_from_envs lib env other c).0 k)
        × ((read_configs_from_envs lib env order c).1 ≡ (read_configs_from_envs lib env other c).1)
  read_configs_from_envs-order order other c all all' = (
    λ k.
        read_configs_from_envs-value order c.0 c.1 k (all k)
        ∙ sym (read_configs_from_envs-value other c.0 c.1 k (all' k)),
    read_configs_from_envs-level order c.0 c.1 (all log_loglevel)
        ∙ sym (read_configs_from_envs-level other c.0 c.1 (all' log_loglevel)),
  )
