-- ===== src/Registry/View/History.antt =====
-- Histories of calls of registry/zookeeper_client.cc, replayed on a directory.
use xrpc.Base.{
  ◌≡◌, refl, ap, sym, ◌∙◌, Bool, Option, none, some, List, [], ◌∷◌, Bytes, Result, ok, Option-cases,
  inl, inr,
}
use xrpc.Registry.Cache.{service_of, cache_find}
use xrpc.Registry.ZooKeeper.{zok, ZooKeeper}
use xrpc.Registry.Session.{Client}
use xrpc.Registry.Nodes.{register, discover, delete, fetch}
use xrpc.Registry.Discovery.{discover-placed, discover-hit}
use xrpc.Registry.Deletion.{delete-Forgot}
use xrpc.Registry.View.{Directory, put, remove, view, view-found, view-Forgot}
use xrpc.Registry.View.Calls.{register-cache, discover-cache, find_or_fetch-miss}

-- A call that returned, with its arguments and its result.
pub data Act : Type 0 where
  registered discovered : Bytes → Bytes → Act
  deleted : Bytes → Act

unfoldable pub replay : List Act → Directory → Directory
replay [] d = d
replay (registered path text ∷ acts) d = replay acts (put path text d)
replay (discovered path text ∷ acts) d = replay acts (put path text d)
replay (deleted path ∷ acts) d = replay acts (remove path d)

-- The calls of one client, one after the other; others may change the nodes between them. A Delete
-- finds the node.
pub data History {zk : ZooKeeper} : List Act → Client zk → Client zk → Type 0 where
  stop : (c : Client zk) → History [] c c
  others :
      (acts : List Act) (c e : Client zk) (z : zk.State)
      → History acts (record c { zoo = z }) e
      → History acts c e
  register_call :
      (path text : Bytes) (ephemeral : Bool) (acts : List Act) (c e : Client zk)
      → (register path text ephemeral c).1 ≡ ok tt
      → History acts (register path text ephemeral c).0 e
      → History (registered path text ∷ acts) c e
  discover_call :
      (path text : Bytes) (acts : List Act) (c e : Client zk)
      → (discover path c).1 ≡ ok text
      → History acts (discover path c).0 e
      → History (discovered path text ∷ acts) c e
  delete_call :
      (path : Bytes) (acts : List Act) (c e : Client zk)
      → (delete path c).1 ≡ ok tt
      → (zk.exists c.zoo path).1.0 ≡ zok
      → History acts (delete path c).0 e
      → History (deleted path ∷ acts) c e

module _ {zk : ZooKeeper} where
  -- After the calls the cache is what they make of the directory that it was before.
  history-view :
      {acts : List Act} {c e : Client zk}
      → History acts c e
      → view e.service_cache ≡ replay acts (view c.service_cache)
  unfolding replay
  history-view (stop c) = refl
  history-view (others acts c e z h) = history-view h
  history-view (register_call path text ephemeral acts c e done h) =
      history-view h ∙ ap (replay acts) (register-cache path text ephemeral c done)
  history-view (discover_call path text acts c e done h) =
      history-view h ∙ ap (replay acts) (discover-cache path text c done)
  history-view (delete_call path acts c e done there h) =
      let (s, placed, forgot) = delete-Forgot path c done there in
      history-view h ∙ ap (replay acts) (view-Forgot s path c (delete path c).0 placed forgot)

  -- The answer of Discover for what the directory holds.
  abbrev pub found_or_fetched : Bytes → Option Bytes → Client zk → Client zk × Result Bytes
  found_or_fetched path (some text) c = (c, ok text)
  found_or_fetched path none c = fetch path c

  discover-view :
      (s path : Bytes) (c : Client zk)
      → service_of path ≡ ok s
      → discover path c ≡ found_or_fetched path (view c.service_cache path) c
  discover-view s path c placed = elim (Option-cases (cache_find s path c.service_cache)) [
    | inl absent ↦
        discover-placed s path c placed
        ∙ find_or_fetch-miss s path c absent
        ∙ ap (λ o. found_or_fetched path o c)
            (sym (view-found s path c.service_cache placed ∙ absent))
    | inr (text, there) ↦
        discover-hit s path text c placed there
        ∙ ap (λ o. found_or_fetched path o c)
            (sym (view-found s path c.service_cache placed ∙ there))
  ]

  -- After any history of Register, Discover and Delete that returned, with changes of the nodes by
  -- others between them, Discover of a path that is not empty answers from the directory that the
  -- calls, replayed one by one, make of the directory that the cache was before; it asks ZooKeeper only
  -- for what that directory lacks. A Delete of the history finds its node.
  pub discover-replay :
      {acts : List Act} {c e : Client zk} (s path : Bytes)
      → History acts c e
      → service_of path ≡ ok s
      → discover path e ≡ found_or_fetched path (replay acts (view c.service_cache) path) e
  discover-replay {e = e} s path h placed =
      discover-view s path e placed ∙ ap (λ d. found_or_fetched path (d path) e) (history-view h)
