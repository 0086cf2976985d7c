-- ===== src/Queue/Content.antt =====
-- internal/util/queue.go: the queue seen as a bounded list, where nobody else acts in between.
use xiaozhi_esp32_server_gol.Common.{
  ℕ, zero, suc, ◌+◌, ◌≤◌, ◌<◌, ◌≡◌, refl, Bool, false, List, [], ◌∷◌, ◌++◌, arith, length,
  length-append, append_assoc, append-nil, ap,
}
use xiaozhi_esp32_server_gol.Queue.{
  Queue, Pushed, ok, failed, push_timeout, queue_closed, queue_empty, Popped, item, error, Mode,
  non_blocking, Choice, receive, send, settle, push_round, recv, select, pop, swap, drain,
  clear_and_drain, close,
}

module _ {ℓ} {A : Type ℓ} where
  abbrev pub content : Queue A → List A
  content q = (q.chans q.cur).items

  -- An open queue that holds `xs`.
  pub record Contains (q : Queue A) (xs : List A) : Type ℓ where
    pub is_open : q.closed ≡ false
    pub chan_open : (q.chans q.cur).shut ≡ false
    pub holds : content q ≡ xs

  abbrev pub push : A → Queue A → Pushed × Queue A
  push v q = push_round false (λ x. x) (λ x. x) v q

  abbrev pub pop_now : Queue A → Popped A × Queue A
  pop_now q = pop non_blocking receive (λ x. x) q

  push-Contains :
      (v : A) (q : Queue A) (xs : List A)
      → Contains q xs
      → length xs < q.cap
      → ((push v q).0 ≡ ok) × Contains (push v q).1 (xs ++ v ∷ []) × ((push v q).1.cap ≡ q.cap)
  unfolding push_round send settle
  push-Contains v q xs c room = ground arith

  -- A full queue refuses with the timeout and stays as it is.
  pub push_full :
      (v : A) (q : Queue A) (xs : List A)
      → Contains q xs
      → q.cap ≤ length xs
      → push v q ≡ (failed push_timeout, q)
  unfolding push_round send settle
  push_full v q xs c full = ground arith

  pop-Contains :
      (q : Queue A) (x : A) (xs : List A)
      → Contains q (x ∷ xs)
      → ((pop_now q).0 ≡ item x) × Contains (pop_now q).1 xs
  unfolding pop select recv
  pop-Contains q x xs c = ground arith

  pub pop_empty : (q : Queue A) → Contains q [] → pop_now q ≡ (error queue_empty, q)
  unfolding pop select recv
  pop_empty q c = ground arith

  pub pushes : List A → Queue A → Queue A
  pushes [] q = q
  pushes (v ∷ vs) q = pushes vs (push v q).1

  -- The items that `n` calls of Pop return, up to the first error.
  pub pops : ℕ → Queue A → List A
  pops zero q = []
  pops (suc n) q = elim (pop_now q).0 [ item x ↦ x ∷ pops n (pop_now q).1 | _ ↦ [] ]

  pushes-Contains :
      (vs : List A) (q : Queue A) (xs : List A)
      → Contains q xs
      → length xs + length vs ≤ q.cap
      → Contains (pushes vs q) (xs ++ vs)
  unfolding pushes
  pushes-Contains [] q xs c room = rw append-nil c
  pushes-Contains (v ∷ vs) q xs c room =
      let (a, b, d) = push-Contains v q xs c (omega arith) in
      let r =
        pushes-Contains vs (push v q).1 (xs ++ v ∷ []) b
          (omega (arith, d, length-append xs (v ∷ []))) in
      rw (append_assoc xs (v ∷ []) vs) at r

  pops-Contains : (xs : List A) (q : Queue A) → Contains q xs → pops (length xs) q ≡ xs
  unfolding pops
  pops-Contains [] q c = refl
  pops-Contains (x ∷ xs) q c =
      let (a, b) = pop-Contains q x xs c in
      rw (a, pops) (ap (◌∷◌ x) (pops-Contains xs (pop_now q).1 b))

  -- First in, first out: what is pushed while there is room comes out behind what was there, in
  -- order, and nothing more.
  pub pops-pushes :
      (vs : List A) (q : Queue A) (xs : List A)
      → Contains q xs
      → length xs + length vs ≤ q.cap
      → pops (length (xs ++ vs)) (pushes vs q) ≡ xs ++ vs
  pops-pushes vs q xs c room =
      pops-Contains (xs ++ vs) (pushes vs q) (pushes-Contains vs q xs c room)

  -- ClearAndDrain returns the whole content in order and leaves the queue open and empty, in a new
  -- generation; a Pop that still waits on the old channel returns with the error of a closed queue.
  pub clear_and_drain_lem :
      (q : Queue A) (xs : List A) (m : Mode)
      → Contains q xs
      → let r = clear_and_drain q in
        (r.0 ≡ xs)
        × Contains r.1 []
        × (r.1.gen ≡ suc q.gen)
        × ((select m receive q.cur r.1).0 ≡ error queue_closed)
  unfolding clear_and_drain swap drain select recv
  clear_and_drain_lem q xs non_blocking c = ground arith
  clear_and_drain_lem q xs m c = ground arith

  -- Close is final: Push and Pop report it, ClearAndDrain finds nothing, and a second Close does
  -- nothing.
  pub close_final :
      (q : Queue A) (late : Bool) (v : A) (m : Mode) (ch : Choice) (env env' : Queue A → Queue A)
      → let c = close q in
        (push_round late env env' v c ≡ (failed queue_closed, c))
        × (pop m ch env c ≡ (error queue_closed, c))
        × (clear_and_drain c ≡ ([], c))
        × (close c ≡ c)
  unfolding close push_round pop clear_and_drain swap
  close_final q late v m ch env env' = ground arith
