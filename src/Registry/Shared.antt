-- ===== src/Registry/Shared.antt =====
-- What ZooKeeper documents of its nodes, and what Register of registry/zookeeper_client.cc leaves there.
pub mod Reading
pub mod Listing
pub mod First
use xrpc.Base.{
  ℕ, ◌≤◌, ◌≡◌, refl, ap, sym, ◌∙◌, subst, Bool, true, false, Option, none, some, List, [], ◌∷◌,
  ◌++◌, Bytes, Result, ok, throw, inl, inr, arith, Bool-cases, text_eq, text_eq_refl, if◌then◌else◌,
  if_true, if_both, length,
}
use xrpc.Registry.Cache.{contains, service_of, cache_put}
use xrpc.Registry.ZooKeeper.{Code, zok, ZooKeeper}
use xrpc.Registry.Session.{Client, M, ◌>>=◌, ◌>>◌, lift, zoo, is_ok}
use xrpc.Registry.Chains.{then_ok, zoo_lem, checked_ok}
use xrpc.Registry.Discovery.{remember_lem}
use xrpc.Registry.Nodes.{
  find_last_byte, check, write_node, remember, register, require_connected, ensure_parent,
}

abbrev pub or_empty : Option Bytes → Bytes
or_empty none = []
or_empty (some text) = text

-- The nodes by their paths, as a session sees them, when nobody else changes them.
pub record ZooKeeperLaws (zk : ZooKeeper) : Type 0 where
  pub node : zk.State → Bytes → Option Bytes
  pub node-create :
      (z : zk.State) (path : Bytes) (text : Option Bytes) (ephemeral : Bool) (p : Bytes)
      → (zk.create z path text ephemeral).1 ≡ zok
      → node (zk.create z path text ephemeral).0 p
        ≡ (if text_eq path p then some (or_empty text) else node z p)
  pub node-set :
      (z : zk.State) (path text : Bytes) (version : ℕ) (p : Bytes)
      → (zk.set z path text version).1 ≡ zok
      → node (zk.set z path text version).0 p ≡ (if text_eq path p then some text else node z p)
  pub node-get :
      (z : zk.State) (path : Bytes) (size : ℕ) (p : Bytes)
      → node (zk.get z path size).0 p ≡ node z p
  pub node-children : (z : zk.State) (path p : Bytes) → node (zk.children z path).0 p ≡ node z p
  -- Data that fits the buffer is read whole.
  pub get_whole :
      (z : zk.State) (path : Bytes) (size : ℕ) (text : Bytes)
      → node z path ≡ some text
      → length text ≤ size
      → (zk.get z path size).1 ≡ (zok, some text)
  -- A node below the path is listed by its name.
  pub children_listed :
      (z : zk.State) (path child text : Bytes)
      → (zk.children z path).1.0 ≡ zok
      → find_last_byte b'/' child ≡ none
      → node z (path ++ b'/' ∷ child) ≡ some text
      → contains child (zk.children z path).1.1 ≡ true

module _ {zk : ZooKeeper} (laws : ZooKeeperLaws zk) where
  written :
      (path text : Bytes) (z : zk.State) (r : Option Bytes)
      → laws.node z path ≡ (if text_eq path path then some text else r)
      → laws.node z path ≡ some text
  written path text z r e = e ∙ if_true _ _ (text_eq_refl path)

  -- A chain that, when it returns, leaves the data at the path.
  abbrev Writes : Bytes → Bytes → Client zk → M zk (Unit {0}) → Type 0
  Writes path text c m = (m c).1 ≡ ok tt → laws.node (m c).0.zoo path ≡ some text

  write_node-Writes :
      (path text : Bytes) (ephemeral : Bool) (found : Code × ℕ) (c : Client zk)
      → Writes path text c (write_node path text ephemeral found)
  unfolding write_node
  write_node-Writes path text ephemeral (code, version) c =
      if_both (Writes path text c) (is_ok code) _ _
        (λ there h.
          let (fine, same) = checked_ok (λ z. zk.set z path text version) _ c h in
          ap (λ z. laws.node z path) same
          ∙ written path text _ _ (laws.node-set c.zoo path text version path fine))
        (λ absent h.
          let (fine, same) = checked_ok (λ z. zk.create z path (some text) ephemeral) _ c h in
          ap (λ z. laws.node z path) same
          ∙ written path text _ _ (laws.node-create c.zoo path (some text) ephemeral path fine))

  -- After a Register that returned, ZooKeeper has the node with the registered data.
  pub register-Writes :
      (path text : Bytes) (ephemeral : Bool) (c : Client zk)
      → Writes path text c (register path text ephemeral)
  unfolding register
  register-Writes path text ephemeral c h =
      let (c1, _, e1, h1) = then_ok _ _ c tt h in
      let (c2, _, e2, h2) = then_ok _ _ c1 tt h1 in
      let (c3, m3, e3, h3) = then_ok _ _ c2 tt h2 in
      let (s, _, r) = remember_lem path text c3 h3 in
      let chain = zoo_lem (λ z. zk.exists z path) (write_node path text ephemeral) c2 in
      let wrote =
        write_node-Writes path text ephemeral _ _ (sym (ap (λ r. r.1) chain) ∙ ap (λ r. r.1) m3) in
      ap (λ r. laws.node r.0.zoo path) (e1 ∙ e2 ∙ e3 ∙ r)
      ∙ ap (λ r. laws.node r.0.zoo path) (sym m3 ∙ chain)
      ∙ wrote
