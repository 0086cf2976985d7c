-- ===== src/Pool/Tests.antt =====
-- Runs of the resource pool, and each theorem about it at a concrete input.
use xiaozhi_esp32_server_gol.Common.{
  ℕ, suc, Bool, List, delete, ◌<◌, ◌≡◌, refl, true, false, none, some, [], ◌∷◌, arith, ◌==◌,
  if◌then◌else◌, lookup, insert, nat_eq,
}
use xiaozhi_esp32_server_gol.Common.Int.{pos}
use xiaozhi_esp32_server_gol.Pool.{
  Config, Factory, Pool, got, blank, new_cell, register, pre_create, looking, back, acquire_steps,
  acquire_step, receive, reset_cell, release, destroy, put_back,
}
use xiaozhi_esp32_server_gol.Pool.Upkeep.{
  new_pool, close, shut_down, destroy_all, destroy_entries, resize, cleanup, collect_idle,
}
use xiaozhi_esp32_server_gol.Pool.Calls.{
  Op, step, enters, moves, releases, cleans, resizes, System, run,
}
use xiaozhi_esp32_server_gol.Pool.Size.{Within}
use xiaozhi_esp32_server_gol.Pool.Bound.{run-new_pool-Within}
use xiaozhi_esp32_server_gol.Pool.Ownership.{Fresh, Inv, Holds}
use xiaozhi_esp32_server_gol.Pool.Shrink.{resize_stuck}
use xiaozhi_esp32_server_gol.Pool.Shutdown.{close_lem}
use xiaozhi_esp32_server_gol.Pool.Cleanup.{cleanup_lem}

-- A factory that counts: its resources are 0, 1, 2 and so on, always valid.
abbrev counter : Factory ℕ
counter = record {
  create = λ w. (some w, suc w);
  validate = λ w r. true;
  is_valid = λ w r. true;
  reset = λ w r. (true, w);
  close = λ w r. w;
}

counter_new : (w r : ℕ) → some w ≡ some r → ¬ (r < w)
counter_new w r e h = ground arith

counter_made : (w r : ℕ) → some w ≡ some r → r < suc w
counter_made w r e = ground arith

abbrev counter_Fresh : Fresh counter
counter_Fresh = record {
  Made = λ w r. r < w;
  create_new = counter_new;
  create_made = counter_made;
  create_keeps = λ w r h. omega arith;
  reset_keeps = λ w s r h. h;
  close_keeps = λ w s r h. h;
}

abbrev config : Config
config = record {
  max_size = pos 2;
  min_size = pos 1;
  max_idle = pos 2;
  idle_timeout = pos 60;
  validate_on_borrow = true;
  validate_on_return = false;
}

-- One idle resource, made at time 5.
abbrev one_idle : Pool ℕ
one_idle = record {
  config = config;
  capacity = 2;
  available = 0 ∷ [];
  chan_closed = false;
  resources = (0, 0) ∷ [];
  heap = λ i. if 0 == i then new_cell 0 5 false else blank;
  next = 1;
  closed = false;
  world = 1;
}

-- The same resource in the hands of a client.
abbrev one_held : Pool ℕ
one_held = record one_idle {
  available = [];
  heap = λ i.
      if 0 == i
      then record { resource = 0; create_time = 5; last_used = 7; in_use = true }
      else blank;
}

abbrev starts_ok : (new_pool counter config 5 0).0 ≡ none
unfolding new_pool pre_create register insert
starts_ok = refl

-- A call that receives, checks, resets and marks the idle resource, while others do nothing.
abbrev four_steps : List (Bool × ℕ × (Pool ℕ → Pool ℕ))
four_steps = (false, 7, λ p. p) ∷ (false, 7, λ p. p) ∷ (false, 7, λ p. p) ∷ (false, 7, λ p. p) ∷ []

acquires_idle : (acquire_steps counter four_steps looking one_idle).0 ≡ back (got 0)
unfolding acquire_steps acquire_step receive reset_cell
acquires_idle = refl

-- Close between the receive and the mark: the resource that the call returns is not in the map.
acquires_closed :
    let r =
      acquire_steps counter
        ((false, 7, close counter)
          ∷ (false, 7, λ p. p)
          ∷ (false, 7, λ p. p)
          ∷ (false, 7, λ p. p)
          ∷ [])
        looking
        one_idle in
    (r.0 ≡ back (got 0)) × (lookup 0 r.1.resources ≡ none)
unfolding acquire_steps acquire_step receive reset_cell close shut_down destroy_all destroy_entries
    destroy lookup delete
acquires_closed = (refl, refl)

entries_ok : (r q : ℕ) → lookup {K = ℕ} r ((0, 0) ∷ []) ≡ some q → (r ≡ 0) × (q ≡ 0)
unfolding lookup
entries_ok r q h = ground arith

one_idle-Inv : Inv counter_Fresh one_idle
unfolding lookup
one_idle-Inv = record {
  idle = (((refl, omega arith), refl), tt);
  distinct = (tt, tt);
  entries = λ r q h. let (a, b) = entries_ok r q h in ground arith;
}

one_held-Inv : Inv counter_Fresh one_held
one_held-Inv = record {
  idle = tt;
  distinct = tt;
  entries = λ r q h. let (a, b) = entries_ok r q h in ground arith;
}

one_held-Holds : Holds counter_Fresh one_held 0
unfolding lookup
one_held-Holds = (0, refl, refl, tt)

-- A call takes the idle resource, and the pool grows to three behind a Resize.
abbrev some_ops : List Op
some_ops =
    enters
    ∷ moves 0 false 7
    ∷ moves 0 false 7
    ∷ moves 0 false 7
    ∷ moves 0 false 7
    ∷ resizes 9 (pos 3)
    ∷ releases 9 (some 0)
    ∷ cleans 99
    ∷ []

abbrev behind_ops : System ℕ
behind_ops =
    elim (run counter some_ops
      (record { pool = (new_pool counter config 5 0).1; borrowers = [] })) [
        | none ↦ record { pool = one_idle; borrowers = [] }
        | some t ↦ t
      ]

-- The same steps, while another client returns something.
abbrev while_releasing : List (Bool × ℕ × (Pool ℕ → Pool ℕ))
while_releasing =
    (false, 7, λ p. (release counter 8 (some 0) p).1)
    ∷ (false, 7, λ p. (release counter 8 none p).1)
    ∷ (false, 7, λ p. (release counter 8 (some 5) p).1)
    ∷ (false, 7, λ p. p)
    ∷ []

run-new_pool-Within_example : Within (pos 3) behind_ops.pool
unfolding run step new_pool pre_create register insert acquire_step receive reset_cell release
    put_back resize cleanup collect_idle destroy_all destroy delete lookup
run-new_pool-Within_example =
    run-new_pool-Within counter config (pos 3) 5 0 some_ops behind_ops starts_ok (omega arith)
      (tt, (tt, (tt, (tt, (tt, (omega arith, (tt, (tt, tt)))))))) refl

-- Two resources in use, to be cut down to one.
abbrev two_held : Pool ℕ
two_held = record one_held {
  resources = (0, 0) ∷ (1, 1) ∷ [];
  heap = λ i. record { resource = i; create_time = 5; last_used = 7; in_use = true };
  next = 2;
  world = 2;
}

resize_stuck_example : resize counter 50 (pos 1) two_held ≡ none
resize_stuck_example =
    resize_stuck counter 50 1 two_held (omega arith) refl (omega arith) (omega arith)

close_lem_example : close counter (close counter one_idle) ≡ close counter one_idle
close_lem_example = (close_lem counter counter_Fresh one_idle one_idle-Inv refl).4

cleanup_lem_example : Inv counter_Fresh (cleanup counter 99 one_idle)
cleanup_lem_example = (cleanup_lem counter counter_Fresh 99 one_idle one_idle-Inv refl).6
