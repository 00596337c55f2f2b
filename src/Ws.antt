-- ===== src/Ws.antt =====
-- WebSocket notifications: src/post/post_feed_ws_manager.hpp, src/post/post_feed_ws_manager.cpp and
-- src/post/post_feed_ws_handler.cpp. A session is an object on a heap; the manager holds weak
-- pointers to it, and the handler that serves the connection the one strong pointer.
pub mod Registry
pub mod Notify
pub mod Pump
pub mod Fanout
pub mod Reach
use otus_highload_architect.Prelude.{
  ℕ, ◌+◌, Bool, true, false, not, ◌||◌, Option, none, some, List, [], ◌∷◌, ◌++◌, foldl, ◌==◌,
  if◌then◌else◌, is_empty, Uuid,
}
use otus_highload_architect.Prelude.Maps.{lookup, insert, remove}
use otus_highload_architect.Platform.Mailbox.{Mailbox}
use otus_highload_architect.Feed.Cache.{FeedPlatform}
use otus_highload_architect.Feed.Messages.{PostEvent, created_message}

-- `WsSession`, by its address: is it alive, and what is in its queue.
pub record Manager {M : Type 0} (box : Mailbox M) : Type 0 where
  pub next : ℕ
  pub alive : ℕ → Bool
  pub queue : ℕ → box.Queue
  -- `SessionMap`: the weak pointers of each user's sessions
  pub sessions : List (Uuid × List ℕ)

abbrev pub update {ℓ} : {A : Type ℓ} → (ℕ → A) → ℕ → A → ℕ → A
update f k a n = if k == n then a else f n

abbrev pub get_list : Option (List ℕ) → List ℕ
get_list none = []
get_list (some l) = l

-- `remove_if` with the predicate of `Unsubscribe`: expired, or the session itself.
unfoldable pub without_session : (ℕ → Bool) → ℕ → List ℕ → List ℕ
without_session alive session [] = []
without_session alive session (wp ∷ wps) =
    if not (alive wp) || wp == session
    then without_session alive session wps
    else wp ∷ without_session alive session wps

module _ {M : Type 0} {box : Mailbox M} where
  -- The sessions that the map has for a user, `[]` where it has no entry.
  unfoldable pub sessions_of : Manager box → Uuid → List ℕ
  sessions_of w user_id = get_list (lookup user_id w.sessions)

  unfoldable pub subscribe : Manager box → Uuid → Manager box × ℕ
  unfolding sessions_of
  subscribe w user_id =
      let session = w.next in
      (
        record {
          next = session + 1;
          alive = update w.alive session true;
          queue = update w.queue session box.create;
          sessions = insert user_id (sessions_of w user_id ++ session ∷ []) w.sessions;
        },
        session,
      )

  unfoldable pub unsubscribe : Manager box → Uuid → ℕ → Manager box
  unfolding without_session
  unsubscribe w user_id session = elim (lookup user_id w.sessions) [
    | none ↦ w
    | some list ↦
        let kept = without_session w.alive session list in
        record w {
          sessions =
              if is_empty kept then remove user_id w.sessions else insert user_id kept w.sessions;
        }
  ]

  -- The handler's `shared_ptr` goes out of scope.
  unfoldable pub release : Manager box → ℕ → Manager box
  release w session = record w { alive = update w.alive session false }

  -- `if (auto sp = wp.lock()) sp->queue->PushNoblock(msg)`
  unfoldable pub push : M → Manager box → ℕ → Manager box
  push msg w wp =
      if w.alive wp
      then record w { queue = update w.queue wp (box.push_noblock (w.queue wp) msg) }
      else w

  -- One round of the loop over the followers.
  unfoldable pub notify_user : M → Manager box → Uuid → Manager box
  unfolding push
  notify_user msg w fid = elim (lookup fid w.sessions) [
    | none ↦ w
    | some list ↦ foldl (push msg) w list
  ]

  unfoldable pub notify_all : M → Manager box → List Uuid → Manager box
  unfolding notify_user
  notify_all msg w followers = foldl (notify_user msg) w followers

-- `NotifyFollowers`, with the replica of the database that it asks for the followers.
module _ (p : FeedPlatform) (box : Mailbox p.json.Document) where
  unfoldable pub notify_followers : p.db.Db → Manager box → PostEvent → Manager box
  unfolding notify_all
  notify_followers slave w e = notify_all (created_message p e) w (p.db.followers slave e.author_id)
