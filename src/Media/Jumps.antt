-- ===== src/Media/Jumps.antt =====
-- internal/app/server/chat/media_player.go: Next and Prev move through the playlist of the agent.
mod Index
use xiaozhi_esp32_server_gol.Common.{
  ℕ, zero, suc, ◌+◌, ◌-◌, ◌%◌, ◌≤◌, ◌<◌, ◌≡◌, refl, sym, ap, subst, ◌∙◌, String, Bool, true, false,
  Option, none, some, List, [], ◌∷◌, length, get_elem?, arith, ◌==◌, if◌then◌else◌, if_given,
  Bool-cases, inl, inr,
}
use native.Mathlib.Nat.{mod-lt, mod-eq_of_lt, mod_self}
use xiaozhi_esp32_server_gol.Common.Int.{ℤ, pos, negsuc, ◌+ℤ◌}
use xiaozhi_esp32_server_gol.Media.Sources.{
  Source, Playlists, Item, AudioConfig, Texts, at, is_empty, snapshot,
}
use xiaozhi_esp32_server_gol.Media.{
  Runtime, Status, Mode, Attachment, drop_held, replace_active, agent_playlist, status_playing,
  release, stop_old, is_some,
}
use xiaozhi_esp32_server_gol.Media.Control.{
  begin_playback, start_agent, play_items, play_index, wrap, next_index, start_index, is_agent,
  jump_items, jump, play_next, play_prev, is_negative,
}
use xiaozhi_esp32_server_gol.Media.Jumps.Index.{wrap-some, next_index-back}

abbrev frame_of :
    Runtime → (Option Source × ℤ) × (Option ℕ × (Status × (Mode × (String × Playlists))))
frame_of r = (
  (r.current_source, r.playback_index),
  (r.active, (r.status, (r.mode, (r.playlist_agent_id, r.playlists)))),
)

frame-release : (e : Option Attachment) (r : Runtime) → frame_of (release e r) ≡ frame_of r
unfolding release
frame-release none r = refl
frame-release (some a) r = refl

frame-stop_old : (o : Option ℕ) (r : Runtime) → frame_of (stop_old o r) ≡ frame_of r
unfolding stop_old
frame-stop_old none r = refl
frame-stop_old (some p) r = refl

abbrev rest_of : Runtime → ℕ × (Mode × (String × Playlists))
rest_of r = (r.next, (r.mode, (r.playlist_agent_id, r.playlists)))

rest-drop_held : (o : Option ℕ) (r : Runtime) → rest_of (drop_held o r) ≡ rest_of r
unfolding drop_held
rest-drop_held none r = refl
rest-drop_held (some p) r = refl

-- What a request leaves that starts the item at `i` of the agent's playlist.
pub record Starts (i : ℤ) (a : String) (item : Item) (r : Runtime) (x : Option String × Runtime)
    : Type 0 where
  pub fine : x.0 ≡ none
  pub source : x.1.current_source ≡ some item.source
  pub index : x.1.playback_index ≡ i
  pub current : x.1.active ≡ some r.next
  pub plays : x.1.status ≡ status_playing
  pub mode : x.1.mode ≡ agent_playlist
  pub agent : x.1.playlist_agent_id ≡ a
  pub lists : x.1.playlists ≡ r.playlists

start_agent_lem :
    (i : ℤ) (a : String) (items : List Item) (item : Item) (cfg : AudioConfig) (r : Runtime)
    → Starts i a item r (start_agent (some item) i a items cfg r)
unfolding start_agent begin_playback replace_active
start_agent_lem i a items item cfg r =
    let s = (start_agent (some item) i a items cfg r).1 in
    let e : frame_of s ≡ (
      (some item.source, i),
      (some r.next, (status_playing, (agent_playlist, (a, r.playlists)))),
    ) =
      frame-stop_old r.active _
      ∙ frame-release r.exclusive_attachment _
      ∙ ap
          (λ (x : ℕ × (Mode × (String × Playlists))).
            ((some item.source, i), (some x.0, (status_playing, x.1))))
          (rest-drop_held r.active (record r {
            mode = agent_playlist;
            playlist_agent_id = a;
            standalone_items = [];
            playlist = items;
            current_index = i;
          })) in
    record {
      fine = refl;
      source = ap (λ x. (x.0).0) e;
      index = ap (λ x. (x.0).1) e;
      current = ap (λ x. (x.1).0) e;
      plays = ap (λ x. ((x.1).1).0) e;
      mode = ap (λ x. (((x.1).1).1).0) e;
      agent = ap (λ x. ((((x.1).1).1).1).0) e;
      lists = ap (λ x. ((((x.1).1).1).1).1) e;
    }

module _ (t : Texts) (cfg : AudioConfig) where
  jump-start :
      (delta : ℤ) (r : Runtime) (x : Item) (xs : List Item) (item : Item)
      → r.mode ≡ agent_playlist
      → is_empty r.playlist_agent_id ≡ false
      → t.trim_space r.playlist_agent_id ≡ r.playlist_agent_id
      → snapshot t r.playlist_agent_id r.playlists ≡ x ∷ xs
      → at (next_index r.playback_index delta (x ∷ xs)) (x ∷ xs) ≡ some item
      → jump t delta cfg r
        ≡ start_agent
            (some item)
            (next_index r.playback_index delta (x ∷ xs))
            r.playlist_agent_id
            (x ∷ xs)
            cfg
            r
  unfolding jump play_index
  jump-start delta r x xs item m n q e h =
      let a = r.playlist_agent_id in
      let i = next_index r.playback_index delta (x ∷ xs) in
      ap
        (λ k. if is_agent k then jump_items t (snapshot t a r.playlists) delta cfg r else (
          some "current playback not in agent playlist, please execute enqueue_current first",
          r,
        ))
        m
      ∙ ap (λ ys. jump_items t ys delta cfg r) e
      ∙ ap
          (λ b.
            if is_empty b
            then (some "agentID cannot be empty", r)
            else play_items t (snapshot t b r.playlists) b i cfg r)
          q
      ∙ ap
          (λ b.
            if b
            then (some "agentID cannot be empty", r)
            else play_items t (snapshot t a r.playlists) a i cfg r)
          n
      ∙ ap (λ ys. play_items t ys a i cfg r) e
      ∙ ap (λ o. start_agent o i a (x ∷ xs) cfg r) h

  -- Next and Prev in an agent's playlist that is not empty never fail, whatever the current index
  -- is: the item at the index that they come to plays in a new playback. TrimSpace changes nothing
  -- the second time.
  pub jump_lem :
      (delta : ℤ) (r : Runtime) (x : Item) (xs : List Item)
      → r.mode ≡ agent_playlist
      → is_empty r.playlist_agent_id ≡ false
      → t.trim_space r.playlist_agent_id ≡ r.playlist_agent_id
      → snapshot t r.playlist_agent_id r.playlists ≡ x ∷ xs
      → let i = next_index r.playback_index delta (x ∷ xs) in
        (item : Item) × (at i (x ∷ xs) ≡ some item)
        × Starts i r.playlist_agent_id item r (jump t delta cfg r)
  unfolding next_index
  jump_lem delta r x xs m n q e =
      let i = next_index r.playback_index delta (x ∷ xs) in
      let (item, h) =
        wrap-some (start_index r.playback_index delta (x ∷ xs) +ℤ delta) (x ∷ xs) (omega arith) in
      (
        item,
        h,
        subst (Starts i r.playlist_agent_id item r) (sym (jump-start delta r x xs item m n q e h))
            (start_agent_lem i r.playlist_agent_id (x ∷ xs) item cfg r),
      )

module _ (t : Texts) (cfg : AudioConfig) where
  -- Prev behind Next plays the item again that was current, where the current index is one of the
  -- agent's playlist. TrimSpace changes nothing the second time.
  pub prev-next :
      (r : Runtime) (k : ℕ) (x y : Item) (xs : List Item)
      → r.mode ≡ agent_playlist
      → is_empty r.playlist_agent_id ≡ false
      → t.trim_space r.playlist_agent_id ≡ r.playlist_agent_id
      → snapshot t r.playlist_agent_id r.playlists ≡ x ∷ xs
      → r.playback_index ≡ pos k
      → get_elem? (x ∷ xs) k ≡ some y
      → let s = (play_prev t cfg (play_next t cfg r).1).1 in
        (s.playback_index ≡ pos k) × (s.current_source ≡ some y.source)
  prev-next r k x y xs m n q e i h =
      let a = r.playlist_agent_id in
      let (item, _, u) = jump_lem t cfg (pos 1) r x xs m n q e in
      let s = (play_next t cfg r).1 in
      let same : s.playlist_agent_id ≡ a = u.agent in
      let (last, g, v) =
        jump_lem t cfg (negsuc 0) s x xs u.mode (ap is_empty same ∙ n)
          (ap t.trim_space same ∙ q ∙ sym same)
          (ap (λ b. snapshot t b s.playlists) same ∙ ap (λ z. snapshot t a z) u.lists ∙ e) in
      let w : next_index s.playback_index (negsuc 0) (x ∷ xs) ≡ pos k =
        ap (λ j. next_index j (negsuc 0) (x ∷ xs))
          (u.index ∙ ap (λ j. next_index j (pos 1) (x ∷ xs)) i)
        ∙ next_index-back k (x ∷ xs) y h in
      let f : some last ≡ some y = sym g ∙ ap (λ j. at j (x ∷ xs)) w ∙ h in
      (v.index ∙ w, v.source ∙ ap (λ o. elim o [ none ↦ none | some z ↦ some z.source ]) f)
