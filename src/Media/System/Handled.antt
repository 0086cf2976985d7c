-- ===== src/Media/System/Handled.antt =====
-- internal/app/server/chat/media_player.go: the balance of exclusive playback in requests.
use xiaozhi_esp32_server_gol.Common.{
  ℕ, String, Bool, true, false, not, ◌&&◌, Option, none, some, List, [], ◌∷◌, if◌then◌else◌,
  if_both,
}
use xiaozhi_esp32_server_gol.Common.Int.{ℤ, pos, negsuc}
use xiaozhi_esp32_server_gol.Media.Sources.{
  Source, Item, AudioConfig, Texts, Playlists, snapshot, at, is_empty, build_items,
  append_to_playlist,
}
use xiaozhi_esp32_server_gol.Media.{
  Runtime, Mode, standalone, agent_playlist, reason_user, reason_interrupt,
}
use xiaozhi_esp32_server_gol.Media.Control.{
  start_standalone, start_agent, replace_standalone, play_index, play_items, play_playlist,
  play_playlist_items, recover_mode, recover_items, recover_playback, recover_from, recover_source,
  jump, jump_items, refresh, is_agent,
}
use xiaozhi_esp32_server_gol.Media.Append.{
  append_found, is_inline, append_current, append_source, join_playlist,
}
use xiaozhi_esp32_server_gol.Media.System.{
  Request, replaces, plays_index, plays_playlist, recovers, jumps, appends, shares, attaches,
  detaches, reports, pauses, suspends, resumes, resumes_interrupted, stops, shows, handle, share,
}
use xiaozhi_esp32_server_gol.Media.System.Exclusive.{view}
use xiaozhi_esp32_server_gol.Media.System.Requests.{
  refl-Kept, Keeps, begin-Kept, stop-Kept, pause-Kept, recover-Kept, interrupted-Kept, attach-Kept,
  detach-Kept, fail_attachment-Kept,
}

standalone-Kept :
    (o : Option Item) (i : ℤ) (xs : List Item) (cfg : AudioConfig) (r : Runtime)
    → Keeps r (start_standalone o i xs cfg r).1
unfolding start_standalone
standalone-Kept none i xs cfg r = refl-Kept (view r)
standalone-Kept (some item) i xs cfg r = begin-Kept i item cfg (record r {
  mode = standalone;
  playlist_agent_id = "";
  standalone_items = xs;
  playlist = [];
  current_index = negsuc 0;
})

agent-Kept :
    (o : Option Item) (i : ℤ) (a : String) (xs : List Item) (cfg : AudioConfig) (r : Runtime)
    → Keeps r (start_agent o i a xs cfg r).1
unfolding start_agent
agent-Kept none i a xs cfg r = refl-Kept (view r)
agent-Kept (some item) i a xs cfg r = begin-Kept i item cfg (record r {
  mode = agent_playlist;
  playlist_agent_id = a;
  standalone_items = [];
  playlist = xs;
  current_index = i;
})

-- A test that gives an error or goes on.
checked :
    {A : Type 0} (b : Bool) (x y : A × Runtime) (r : Runtime)
    → Keeps r x.1
    → Keeps r y.1
    → Keeps r (if b then x else y).1
checked {A} b x y r f g = if_both (λ (z : A × Runtime). Keeps r z.1) b x y f g

module _ (t : Texts) where
  play_items-Kept :
      (xs : List Item) (a : String) (i : ℤ) (cfg : AudioConfig) (r : Runtime)
      → Keeps r (play_items t xs a i cfg r).1
  play_items-Kept [] a i cfg r = refl-Kept (view r)
  play_items-Kept (x ∷ xs) a i cfg r = agent-Kept (at i (x ∷ xs)) i a (x ∷ xs) cfg r

  index-Kept :
      (agent : String) (i : ℤ) (cfg : AudioConfig) (r : Runtime)
      → Keeps r (play_index t agent i cfg r).1
  unfolding play_index
  index-Kept agent i cfg r =
      let a = t.trim_space agent in
      checked (is_empty a) _ _ r (refl-Kept (view r))
        (play_items-Kept (snapshot t a r.playlists) a i cfg r)

  replace-Kept :
      (now : ℕ) (ss : List Source) (i : ℤ) (cfg : AudioConfig) (r : Runtime)
      → Keeps r (replace_standalone t now ss i cfg r).1
  unfolding replace_standalone
  replace-Kept now [] i cfg r = stop-Kept r
  replace-Kept now (s ∷ ss) i cfg r =
      let xs = build_items t now (s ∷ ss) in standalone-Kept (at i xs) i xs cfg r

  playlist_items-Kept :
      (xs : List Item) (a : String) (cfg : AudioConfig) (r : Runtime)
      → Keeps r (play_playlist_items t xs a cfg r).1
  playlist_items-Kept [] a cfg r = refl-Kept (view r)
  playlist_items-Kept (x ∷ xs) a cfg r = index-Kept a _ cfg r

  playlist-Kept :
      (agent : String) (cfg : AudioConfig) (r : Runtime) → Keeps r (play_playlist t agent cfg r).1
  unfolding play_playlist
  playlist-Kept agent cfg r =
      let a = t.trim_space agent in
      checked (is_empty a) _ _ r (refl-Kept (view r))
        (playlist_items-Kept (snapshot t a r.playlists) a cfg r)

  recover_items-Kept :
      (xs : List Item) (cfg : AudioConfig) (r : Runtime) → Keeps r (recover_items t xs cfg r).1
  recover_items-Kept [] cfg r = refl-Kept (view r)
  recover_items-Kept (x ∷ xs) cfg r = index-Kept r.playlist_agent_id _ cfg r

  source-Kept :
      (now : ℕ) (o : Option Source) (cfg : AudioConfig) (r : Runtime)
      → Keeps r (recover_source t now o cfg r).1
  source-Kept now none cfg r = refl-Kept (view r)
  source-Kept now (some s) cfg r = replace-Kept now (s ∷ []) (pos 0) cfg r

  mode-Kept :
      (now : ℕ) (m : Mode) (cfg : AudioConfig) (r : Runtime)
      → Keeps r (recover_mode t now m cfg r).1
  unfolding recover_mode
  mode-Kept now agent_playlist cfg r =
      recover_items-Kept (snapshot t r.playlist_agent_id r.playlists) cfg r
  mode-Kept now standalone cfg r = source-Kept now r.current_source cfg r

  from-Kept :
      (now : ℕ) (b : Bool) (o : Option ℕ) (cfg : AudioConfig) (r : Runtime)
      → Keeps r (recover_from t now b o cfg r).1
  unfolding recover_from
  from-Kept now b none cfg r = mode-Kept now r.mode cfg r
  from-Kept now b (some p) cfg r =
      checked (r.heap p).paused _ _ r (recover-Kept r.active r.attachment r)
        (if_both (Keeps r) b _ _ (refl-Kept (view r)) (refl-Kept (view r)))

  recover_playback-Kept :
      (now : ℕ) (b : Bool) (cfg : AudioConfig) (r : Runtime)
      → Keeps r (recover_playback t now b cfg r).1
  unfolding recover_playback
  recover_playback-Kept now b cfg r =
      checked (b && not r.resume_on_attach) _ _ r (refl-Kept (view r))
        (from-Kept now b r.active cfg r)

  jump_items-Kept :
      (xs : List Item) (delta : ℤ) (cfg : AudioConfig) (r : Runtime)
      → Keeps r (jump_items t xs delta cfg r).1
  jump_items-Kept [] delta cfg r = refl-Kept (view r)
  jump_items-Kept (x ∷ xs) delta cfg r = index-Kept r.playlist_agent_id _ cfg r

  jump-Kept : (delta : ℤ) (cfg : AudioConfig) (r : Runtime) → Keeps r (jump t delta cfg r).1
  unfolding jump
  jump-Kept delta cfg r =
      checked (is_agent r.mode) _ _ r
        (jump_items-Kept (snapshot t r.playlist_agent_id r.playlists) delta cfg r)
        (refl-Kept (view r))

  append_source-Kept :
      (o : Option ((Item × List Item) × Playlists)) (a : String) (s : Source) (r : Runtime)
      → Keeps r (append_source t o a s r).1
  unfolding join_playlist
  append_source-Kept none a s r = refl-Kept (view r)
  append_source-Kept (some ((item, items), m)) a s r = refl-Kept (view r)

  append_found-Kept :
      (now : ℕ) (a : String) (o : Option Source) (r : Runtime)
      → Keeps r (append_found t now a o r).1
  append_found-Kept now a none r = refl-Kept (view r)
  append_found-Kept now a (some s) r =
      checked (is_inline s.source_type) _ _ r (refl-Kept (view r))
        (append_source-Kept (append_to_playlist t now a s r.playlists) a s r)

  share-Kept : (o : Option ((Item × List Item) × Playlists)) (r : Runtime) → Keeps r (share o r)
  share-Kept none r = refl-Kept (view r)
  share-Kept (some (i, m)) r = refl-Kept (view r)

  -- Every request keeps the balance.
  pub handle-Kept : (q : Request) (r : Runtime) → Keeps r (handle t q r)
  unfolding handle refresh append_current
  handle-Kept (replaces now ss i cfg) r = replace-Kept now ss i cfg r
  handle-Kept (plays_index agent i cfg) r = index-Kept agent i cfg r
  handle-Kept (plays_playlist agent cfg) r = playlist-Kept agent cfg r
  handle-Kept (recovers now b cfg) r = recover_playback-Kept now b cfg r
  handle-Kept (jumps delta cfg) r = jump-Kept delta cfg r
  handle-Kept (appends now agent) r = append_found-Kept now (t.trim_space agent) r.current_source r
  handle-Kept (shares now agent s) r = share-Kept (append_to_playlist t now agent s r.playlists) r
  handle-Kept (attaches session) r = attach-Kept session r
  handle-Kept (detaches session b) r = detach-Kept r.attachment session b r
  handle-Kept (reports p a) r = fail_attachment-Kept p a r
  handle-Kept pauses r = pause-Kept r.active true reason_user r
  handle-Kept suspends r = pause-Kept r.active false reason_interrupt r
  handle-Kept resumes r = recover-Kept r.active r.attachment r
  handle-Kept resumes_interrupted r = interrupted-Kept r
  handle-Kept stops r = stop-Kept r
  handle-Kept shows r = refl-Kept (view r)
