-- ===== src/Hooks/Hub/Enabled.antt =====
-- internal/pkg/hooks/hub.go: EnablePlugin and DisablePlugin.
use xiaozhi_esp32_server_gol.Common.{
  ℕ, suc, ◌+◌, ◌≤◌, ◌≡◌, refl, subst, sym, ◌∙◌, String, Bool, true, false, ◌&&◌, none, some, List,
  [], ◌∷◌, if◌then◌else◌, lookup, insert, string_eq, arith, Option-cases, Bool-cases, inl, inr,
}
use xiaozhi_esp32_server_gol.Hooks.Hub.{Named, Hub, hooks_of, set_first, set_in, set_plugin_enabled}

-- The enabled hooks of a name, in a list and in a map.
abbrev pub enabled_in : {H : Type 0} → String → List (Named H) → ℕ
enabled_in name [] = 0
enabled_in name (x ∷ xs) =
    (if string_eq.beq x.meta.name name && x.enabled then 1 else 0) + enabled_in name xs

abbrev pub enabled_under : {H : Type 0} → String → List (String × List (Named H)) → ℕ
enabled_under name [] = 0
enabled_under name ((event, hs) ∷ m) = enabled_in name hs + enabled_under name m

hooks_here :
    {A : Type 0} (event j : String) (ks : List A) (m : List (String × List A))
    → string_eq.beq j event ≡ true
    → hooks_of event ((j, ks) ∷ m) ≡ ks
unfolding lookup
hooks_here event j ks m t = ground (arith, t)

hooks_past :
    {A : Type 0} (event j : String) (ks : List A) (m : List (String × List A))
    → string_eq.beq j event ≡ false
    → hooks_of event ((j, ks) ∷ m) ≡ hooks_of event m
unfolding lookup
hooks_past event j ks m t = ground (arith, t)

module _ (name : String) (on : Bool) where
  set_in_past :
      {H : Type 0} (event : String) (events : List String) (m : List (String × List (Named H)))
      → set_first name on (hooks_of event m) ≡ none
      → set_in name on (event ∷ events) m ≡ set_in name on events m
  unfolding set_in
  set_in_past event events m e = rw (set_in, e) refl

  set_in_here :
      {H : Type 0} (event : String) (events : List String) (m : List (String × List (Named H)))
      (hs : List (Named H))
      → set_first name on (hooks_of event m) ≡ some hs
      → set_in name on (event ∷ events) m ≡ some (insert event hs m)
  unfolding set_in
  set_in_here event events m hs e = rw (set_in, e) refl

  set_first_one :
      {H : Type 0} (xs ys : List (Named H))
      → set_first name on xs ≡ some ys
      → enabled_in name xs ≤ suc (enabled_in name ys)
  unfolding set_first
  set_first_one [] ys h = absurd (ground (arith, h))
  set_first_one (x ∷ xs) ys h = elim (Bool-cases (string_eq.beq x.meta.name name)) [
    | inl t ↦
        let e : record x { enabled = on } ∷ xs ≡ ys = ground (arith, h, t) in
        subst (λ zs. enabled_in name (x ∷ xs) ≤ suc (enabled_in name zs)) e (ground (arith, t))
    | inr t ↦ elim (Option-cases (set_first name on xs)) [
      | inl n ↦ absurd (ground (arith, h, t, n))
      | inr (zs, n) ↦
          let e : x ∷ zs ≡ ys = ground (arith, h, t, n) in
          subst (λ us. enabled_in name (x ∷ xs) ≤ suc (enabled_in name us)) e
            (omega (arith, set_first_one xs zs n))
    ]
  ]

  enabled-insert :
      {H : Type 0} (event : String) (gs : List (Named H)) (m : List (String × List (Named H)))
      → enabled_in name (hooks_of event m) ≤ suc (enabled_in name gs)
      → enabled_under name m ≤ suc (enabled_under name (insert event gs m))
  unfolding lookup insert
  enabled-insert event gs [] l = omega arith
  enabled-insert event gs ((j, ks) ∷ m) l = elim (Bool-cases (string_eq.beq j event)) [
    | inl t ↦
        let here =
          subst (λ hs. enabled_in name hs ≤ suc (enabled_in name gs)) (hooks_here event j ks m t)
            l in
        rw (insert, t) (omega (arith, here))
    | inr t ↦
        let past =
          subst (λ hs. enabled_in name hs ≤ suc (enabled_in name gs)) (hooks_past event j ks m t)
            l in
        rw (insert, t) (omega (arith, enabled-insert event gs m past))
  ]

  set_in_one :
      {H : Type 0} (events : List String) (m n : List (String × List (Named H)))
      → set_in name on events m ≡ some n
      → enabled_under name m ≤ suc (enabled_under name n)
  unfolding set_in
  set_in_one [] m n h = absurd (ground (arith, h))
  set_in_one (event ∷ events) m n h = elim (Option-cases (set_first name on (hooks_of event m))) [
    | inl e ↦ set_in_one events m n (sym (set_in_past event events m e) ∙ h)
    | inr (hs, e) ↦
        let found = set_in_here event events m hs e in
        let q : insert event hs m ≡ n = cc in
        subst (λ k. enabled_under name m ≤ suc (enabled_under name k)) q
          (enabled-insert event hs m (set_first_one (hooks_of event m) hs e))
  ]

  -- DisablePlugin and EnablePlugin change one hook at most, whatever the order of the maps is: where
  -- several hooks have the name, such as one for each of several events, disabling it leaves all
  -- but one of those that were enabled.
  pub set_plugin_enabled_one :
      {W P E : Type 0} (syncs asyncs : List String) (h : Hub W P E)
      → let g = set_plugin_enabled syncs asyncs name on h in
        enabled_under name h.syncs + enabled_under name h.asyncs
        ≤ suc (enabled_under name g.syncs + enabled_under name g.asyncs)
  unfolding set_plugin_enabled
  set_plugin_enabled_one syncs asyncs h = elim (Option-cases (set_in name on syncs h.syncs)) [
    | inr (m, e) ↦ rw (set_plugin_enabled, e) (omega (arith, set_in_one syncs h.syncs m e))
    | inl e ↦ elim (Option-cases (set_in name on asyncs h.asyncs)) [
      | inr (m, f) ↦ rw (set_plugin_enabled, e, f) (omega (arith, set_in_one asyncs h.asyncs m f))
      | inl f ↦ rw (set_plugin_enabled, e, f) (omega arith)
    ]
  ]
