-- ===== src/Metrics/Cleanup.antt =====
-- internal/domain/chat/hooks/statistic_plugin.go: what cleanupStaleLocked removes.
use xiaozhi_esp32_server_gol.Common.{
  ℕ, suc, ◌-◌, ◌%◌, ◌≤◌, ◌<◌, ◌≡◌, refl, ◌∙◌, lookup-delete_self, lookup-insert_self, leb→le,
  insert-Distinct, lookup-All, All, inl, inr, arith, String, true, false, none, some, List, [], ◌∷◌,
  leb, ◌==◌, if◌then◌else◌, lookup, insert, string_eq, lookup-delete, Bool-cases,
}
use xiaozhi_esp32_server_gol.Metrics.{Plugin, ttl, drop_session, cleanup_stale, see}
use xiaozhi_esp32_server_gol.Metrics.Kept.{Inv}

-- A fresh session keeps what the plugin holds of it.
fresh_kept :
    (now : ℕ) (k : String) (es : List (String × ℕ)) (p : Plugin)
    → All (λ e. e.0 ≡ k → (now - e.1 ≤ ttl)) es
    → let q = cleanup_stale now es p in
      (lookup k q.current ≡ lookup k p.current)
      × (lookup k q.next_turn ≡ lookup k p.next_turn)
      × (lookup k q.last_seen ≡ lookup k p.last_seen)
unfolding cleanup_stale
fresh_kept now k [] p h = (refl, refl, refl)
fresh_kept now k ((j, s) ∷ es) p (hj, h) =
    let (a, b, c) = fresh_kept now k es (if leb (now - s) ttl then p else drop_session j p) h in
    (
      ground (arith, a, hj, string_eq.beq_iff j k, lookup-delete j k p.current),
      ground (arith, b, hj, string_eq.beq_iff j k, lookup-delete j k p.next_turn),
      ground (arith, c, hj, string_eq.beq_iff j k, lookup-delete j k p.last_seen),
    )

none_kept :
    (now : ℕ) (k : String) (es : List (String × ℕ)) (p : Plugin)
    → lookup k p.current ≡ none
    → lookup k p.next_turn ≡ none
    → lookup k p.last_seen ≡ none
    → let q = cleanup_stale now es p in
      (lookup k q.current ≡ none) × (lookup k q.next_turn ≡ none) × (lookup k q.last_seen ≡ none)
unfolding cleanup_stale
none_kept now k [] p a b c = (a, b, c)
none_kept now k ((j, s) ∷ es) p a b c =
    none_kept now k es (if leb (now - s) ttl then p else drop_session j p)
      (ground (arith, a, lookup-delete j k p.current))
      (ground (arith, b, lookup-delete j k p.next_turn))
      (ground (arith, c, lookup-delete j k p.last_seen))

stale_gone :
    (now : ℕ) (k : String) (s : ℕ) (es : List (String × ℕ)) (p : Plugin)
    → lookup k es ≡ some s
    → ttl < now - s
    → let q = cleanup_stale now es p in
      (lookup k q.current ≡ none) × (lookup k q.next_turn ≡ none) × (lookup k q.last_seen ≡ none)
unfolding cleanup_stale lookup
stale_gone now k s [] p h l = ground (arith, h)
stale_gone now k s ((j, r) ∷ es) p h l = elim (Bool-cases (string_eq.beq j k)) [
  | inl t ↦
      let q = (string_eq.beq_iff j k).0 t in
      let stale : leb (now - r) ttl ≡ false = ground (arith, h, t) in
      rw (cleanup_stale, stale)
        (none_kept now k es (drop_session j p) (rw q (lookup-delete_self k p.current))
          (rw q (lookup-delete_self k p.next_turn)) (rw q (lookup-delete_self k p.last_seen)))
  | inr t ↦
      stale_gone now k s es (if leb (now - r) ttl then p else drop_session j p)
        (ground (arith, h, t)) l
]

-- The cleanup that a metric triggers forgets the sessions that were not seen for more than two
-- minutes, in all three maps, and keeps what the plugin holds of the others.
pub see_cleans :
    (sid : String) (now : ℕ) (p : Plugin) (k : String) (s : ℕ)
    → Inv p
    → (suc p.cleanup_counter % 100) ≡ 0
    → lookup k (insert sid now p.last_seen) ≡ some s
    → let q = see sid now p in
      let fresh = leb (now - s) ttl in
      (lookup k q.current ≡ (if fresh then lookup k p.current else none))
      × (lookup k q.next_turn ≡ (if fresh then lookup k p.next_turn else none))
      × (lookup k q.last_seen ≡ (if fresh then some s else none))
unfolding see
see_cleans sid now p k s v full h =
    let l = insert sid now p.last_seen in
    let q = record p { last_seen = l; cleanup_counter = suc p.cleanup_counter } in
    let turn : (suc p.cleanup_counter % 100 == 0) ≡ true = ground (arith, full) in
    elim (Bool-cases (leb (now - s) ttl)) [
      | inl t ↦
          let (a, b, c) = fresh_kept now k l q (
            lookup-All k (λ r. now - r ≤ ttl) s l (insert-Distinct sid now p.last_seen v.once) h
              (leb→le (now - s) ttl t)) in
          rw (turn, t) (a, b, c ∙ h)
      | inr t ↦ rw (turn, t) (stale_gone now k s l q h (ground (arith, t)))
    ]

-- The session whose metric it is keeps its turn, and is seen.
pub see_keeps :
    (sid : String) (now : ℕ) (p : Plugin)
    → Inv p
    → let q = see sid now p in
      (lookup sid q.current ≡ lookup sid p.current)
      × (lookup sid q.next_turn ≡ lookup sid p.next_turn)
      × (lookup sid q.last_seen ≡ some now)
unfolding see
see_keeps sid now p v =
    let l = insert sid now p.last_seen in
    let q = record p { last_seen = l; cleanup_counter = suc p.cleanup_counter } in
    let h = lookup-insert_self sid now p.last_seen in
    let (a, b, c) = fresh_kept now sid l q (
      lookup-All sid (λ r. now - r ≤ ttl) now l (insert-Distinct sid now p.last_seen v.once) h
        (omega arith)) in
    elim (Bool-cases (suc p.cleanup_counter % 100 == 0)) [
      | inl t ↦ rw t (a, b, c ∙ h)
      | inr t ↦ rw t (refl, refl, h)
    ]
