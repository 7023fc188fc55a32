-- ===== src/Setup/Options.antt =====
-- The options of the listening socket.
use npacn_fisac.Base.{
  ℕ, ◌≡◌, refl, ◌∙◌, ap, sym, Bool, true, false, Option, none, some, List, [], ◌∷◌, ◌++◌,
}
use npacn_fisac.Base.{append_assoc, append-nil, Ensures, returns}
use npacn_fisac.Base.{◌+◌, ◌<◌, ◌==◌, ◌⊎◌, inl, inr, Bool-cases, map, arith}
use npacn_fisac.Base.CText.{codes, strcmp_eq}
use npacn_fisac.Winsock.{
  Socket, Winsock, SocketOption, reuse_addr, tcp_nodelay, keep_alive, receive_buffer,
}
use npacn_fisac.Setup.{to_lower, is_tuned, option_values, or_exit, set_options, set_socket_options}

-- The settings of each socket, oldest first: a call of `setsockopt` that succeeds adds one, and
-- one that fails none.
pub record HasSettings (net : Winsock) : Type 0 where
  pub settings : Socket → net.Os → List (SocketOption × ℕ)
  pub set-settings :
      (s : Socket) (option : SocketOption) (value : ℕ) (os : net.Os)
      → (net.setsockopt s option value os).0 ≡ true
      → settings s (net.setsockopt s option value os).1 ≡ settings s os ++ ((option, value) ∷ [])

-- The word, in small or capital letters.
abbrev pub SpellsAnyCase : List ℕ → List ℕ → Type 0
SpellsAnyCase [] [] = Unit
SpellsAnyCase (c ∷ cs) (d ∷ ds) = ((c ≡ d) ⊎ (c + 32 ≡ d)) × SpellsAnyCase cs ds
SpellsAnyCase _ _ = ⊥

-- The environment variable chooses the untuned options where it is "baseline" in any case of letters,
-- and the tuned ones where it is anything else or not set.
pub data Chooses : Option (List ℕ) → Bool → Type 0 where
  unset : Chooses none true
  baseline :
      {profile : List ℕ} → SpellsAnyCase profile (codes "baseline") → Chooses (some profile) false
  other_profile :
      {profile : List ℕ} → ¬ SpellsAnyCase profile (codes "baseline") → Chooses (some profile) true

AreSmall : List ℕ → Type 0
AreSmall [] = Unit
AreSmall (d ∷ ds) = ((96 < d) × (d < 123)) × AreSmall ds

to_lower_same : (c d : ℕ) → 96 < d → d < 123 → (to_lower c == d) ≡ true → (c ≡ d) ⊎ (c + 32 ≡ d)
unfolding to_lower
to_lower_same c d lo hi e = ground arith

to_lower_other :
    (c d : ℕ) → 96 < d → d < 123 → (to_lower c == d) ≡ false → ¬ ((c ≡ d) ⊎ (c + 32 ≡ d))
unfolding to_lower
to_lower_other c d lo hi e (inl q) = ground arith
to_lower_other c d lo hi e (inr q) = ground arith

strcmp_eq-SpellsAnyCase :
    (cs ds : List ℕ)
    → AreSmall ds
    → ((strcmp_eq (map to_lower cs) ds ≡ true) × SpellsAnyCase cs ds)
      ⊎ ((strcmp_eq (map to_lower cs) ds ≡ false) × (¬ SpellsAnyCase cs ds))
unfolding strcmp_eq AreSmall
strcmp_eq-SpellsAnyCase [] [] small = inl (refl, tt)
strcmp_eq-SpellsAnyCase [] (d ∷ ds) small = inr (refl, λ h. h)
strcmp_eq-SpellsAnyCase (c ∷ cs) [] small = inr (refl, λ h. h)
strcmp_eq-SpellsAnyCase (c ∷ cs) (d ∷ ds) small = elim (Bool-cases (to_lower c == d)) [
  | inr ne ↦ inr (rw ne refl, λ h. to_lower_other c d small.0.0 small.0.1 ne h.0)
  | inl e ↦ elim (strcmp_eq-SpellsAnyCase cs ds small.1) [
    | inl rest ↦ inl (rw (e, rest.0) refl, (to_lower_same c d small.0.0 small.0.1 e, rest.1))
    | inr rest ↦ inr (rw (e, rest.0) refl, λ h. rest.1 h.1)
  ]
]

is_tuned-Chooses : (profile : Option (List ℕ)) → Chooses profile (is_tuned profile)
unfolding is_tuned AreSmall
is_tuned-Chooses none = unset
is_tuned-Chooses (some profile) =
    elim (strcmp_eq-SpellsAnyCase profile (codes "baseline") (search arith)) [
      | inl same ↦ rw (is_tuned, same.0) (baseline same.1)
      | inr different ↦ rw (is_tuned, different.0) (other_profile different.1)
    ]

-- The options of the tuned server, and of the one that measurements compare it with.
abbrev pub profile_settings : Bool → List (SocketOption × ℕ)
profile_settings true =
    (reuse_addr, 1) ∷ (tcp_nodelay, 1) ∷ (keep_alive, 1) ∷ (receive_buffer, 131072) ∷ []
profile_settings false =
    (reuse_addr, 0) ∷ (tcp_nodelay, 0) ∷ (keep_alive, 0) ∷ (receive_buffer, 8192) ∷ []

module _ {net : Winsock} (has : HasSettings net) (s : Socket) where
  -- All of `added` was set, or a call failed and the process was ended.
  pub data Sets (added : List (SocketOption × ℕ)) (before : net.Os)
      : Option (Unit {0}) → net.Os → Type 0 where
    all_set :
        {after : net.Os}
        → has.settings s after ≡ has.settings s before ++ added
        → Sets added before (some tt) after
    ended :
        {after : net.Os} (option : SocketOption) (value : ℕ) (os : net.Os)
        → (net.setsockopt s option value os).0 ≡ false
        → Sets added before none after

  set_options-Sets :
      (before : net.Os) (done_with options : List (SocketOption × ℕ)) (os : net.Os)
      → has.settings s os ≡ has.settings s before ++ done_with
      → Ensures (Sets (done_with ++ options) before) (set_options net s options os)
  unfolding set_options
  set_options-Sets before done_with [] os e =
      returns (all_set (e ∙ ap (λ l. has.settings s before ++ l) (sym (append-nil done_with))))
  set_options-Sets before done_with ((option, value) ∷ options) os e =
      pick (net.setsockopt s option value os).0 refl λ set.
        set_options-Sets before (done_with ++ ((option, value) ∷ [])) options after (one_more set)
    where
      after : net.Os
      after = (net.setsockopt s option value os).1

      one_more :
          (net.setsockopt s option value os).0 ≡ true
          → has.settings s after ≡ has.settings s before ++ (done_with ++ ((option, value) ∷ []))
      one_more set =
          has.set-settings s option value os set
          ∙ ap (λ l. l ++ ((option, value) ∷ [])) e
          ∙ append_assoc (has.settings s before) done_with ((option, value) ∷ [])

      pick :
          (b : Bool)
          → (net.setsockopt s option value os).0 ≡ b
          → ((net.setsockopt s option value os).0 ≡ true
              → Ensures
                  (Sets ((done_with ++ ((option, value) ∷ [])) ++ options) before)
                  (set_options net s options after))
          → Ensures
              (Sets (done_with ++ ((option, value) ∷ options)) before)
              (or_exit net (set_options net s options) b after)
      pick true q go =
          unfold or_exit in rw⁻¹ (append_assoc done_with ((option, value) ∷ []) options) (go q)
      pick false q go = unfold or_exit in returns (ended option value os q)

  -- `set_socket_options` returns. Where every call of `setsockopt` succeeds, it has set four options in
  -- this order and no other, each to its value: all off and 8192 bytes where the environment variable
  -- FISAC_SOCKOPTS_PROFILE is "baseline" in any case of letters, and all on and 131072 bytes where it is
  -- anything else or not set. It ends the process only where a call failed.
  pub set_socket_options-Sets :
      (os : net.Os)
      → (tuned : Bool) × Chooses net.profile tuned
        × Ensures (Sets (profile_settings tuned) os) (set_socket_options net s os)
  unfolding set_socket_options option_values
  set_socket_options-Sets os =
      (is_tuned net.profile, is_tuned-Chooses net.profile, by_profile (is_tuned net.profile))
    where
      start : has.settings s os ≡ has.settings s os ++ []
      start = sym (append-nil (has.settings s os))

      by_profile :
          (tuned : Bool)
          → Ensures (Sets (profile_settings tuned) os) (set_options net s (option_values tuned) os)
      by_profile true = set_options-Sets os [] (profile_settings true) os start
      by_profile false = set_options-Sets os [] (profile_settings false) os start
