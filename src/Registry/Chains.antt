-- ===== src/Registry/Chains.antt =====
-- Chains of the steps in the methods of registry/zookeeper_client.cc, and the calls of the C client in them.
use xrpc.Base.{
  ◌≡◌, refl, ap, sym, ◌∙◌, Bool, true, false, ◌&&◌, ◌++◌, if◌then◌else◌, Bytes, Result, ok, throw,
  arith,
}
use xrpc.Registry.ZooKeeper.{Code, zok, znodeexists, znonode, zfailure, ZooKeeper}
use xrpc.Registry.Session.{Client, M, follow, ◌>>=◌, ◌>>◌, pure, lift, zoo, is_ok}
use xrpc.Registry.Nodes.{check, require_connected, not_connected}

pub is_ok-zok : (code : Code) → is_ok code ≡ true → code ≡ zok
is_ok-zok zok h = refl
is_ok-zok znodeexists h = ground (arith, h)
is_ok-zok znonode h = ground (arith, h)
is_ok-zok (zfailure n) h = ground (arith, h)

module _ {zk : ZooKeeper} where
  -- A chain that returns has returned from its last part.
  follow_ok {ℓ κ} :
      {A : Type ℓ} {B : Type κ} (f : A → M zk B) (p : Client zk × Result A) (b : B)
      → (follow f p).1 ≡ ok b
      → (a : A) × (p.1 ≡ ok a) × (follow f p ≡ f a p.0)
  follow_ok f (c, ok a) b h = (a, refl, refl)
  follow_ok f (c, throw e) b h = absurd (ground (arith, h))

  -- The first part of a chain that returns, and the rest.
  pub then_ok {κ} :
      {B : Type κ} (m : M zk (Unit {0})) (k : M zk B) (c : Client zk) (b : B)
      → ((m >> k) c).1 ≡ ok b
      → (c' : Client zk) × (m c ≡ (c', ok tt)) × ((m >> k) c ≡ k c') × ((k c').1 ≡ ok b)
  unfolding ◌>>◌
  then_ok m k c b h =
      let (_, h', e) = follow_ok (λ _. k) (m c) b h in
      ((m c).0, ap (λ r. ((m c).0, r)) h', e, sym (ap (λ r. r.1) e) ∙ h)

  pub pure_lem {ℓ} : {A : Type ℓ} (a : A) (c : Client zk) → pure a c ≡ (c, ok a)
  unfolding pure
  pure_lem a c = refl

  pub lift_lem {ℓ} : {A : Type ℓ} (r : Result A) (c : Client zk) → lift r c ≡ (c, r)
  unfolding lift
  lift_lem r c = refl

  pub bind_ok {ℓ κ} :
      {A : Type ℓ} {B : Type κ} (m : M zk A) (f : A → M zk B) (c : Client zk) (b : B)
      → ((m >>= f) c).1 ≡ ok b
      → (c' : Client zk) × (a : A) × (m c ≡ (c', ok a))
        × ((m >>= f) c ≡ f a c')
        × ((f a c').1 ≡ ok b)
  unfolding ◌>>=◌
  bind_ok m f c b h =
      let (a, h', e) = follow_ok f (m c) b h in
      ((m c).0, a, ap (λ r. ((m c).0, r)) h', e, sym (ap (λ r. r.1) e) ∙ h)

  pub zoo_lem {ℓ κ} :
      {A : Type ℓ} {B : Type κ} (call : zk.State → zk.State × A) (f : A → M zk B) (c : Client zk)
      → (zoo call >>= f) c ≡ f (call c.zoo).1 (record c { zoo = (call c.zoo).0 })
  unfolding zoo ◌>>=◌
  zoo_lem call f c = refl

  check_ok :
      (passed : Bool) (what : Bytes) (code : Code) (c : Client zk)
      → (check passed what code c).1 ≡ ok tt
      → (passed ≡ true) × ((check passed what code c).0 ≡ c)
  unfolding check lift
  check_ok true what code c h = (refl, refl)
  check_ok false what code c h = absurd (ground (arith, h))

  -- A call whose code was tested, in a chain that returned.
  pub checked_ok :
      (call : zk.State → zk.State × Code) (what : Bytes) (c : Client zk)
      → ((zoo call >>= (λ code. check (is_ok code) what code)) c).1 ≡ ok tt
      → ((call c.zoo).1 ≡ zok)
        × (((zoo call >>= (λ code. check (is_ok code) what code)) c).0.zoo ≡ (call c.zoo).0)
  checked_ok call what c h =
      let e = zoo_lem call (λ code. check (is_ok code) what code) c in
      let (passed, same) = check_ok _ what _ _ (sym (ap (λ r. r.1) e) ∙ h) in
      (is_ok-zok _ passed, ap (λ r. r.0.zoo) e ∙ ap (λ d. d.zoo) same)

  -- The first test passes while the client is connected.
  abbrev pub IsLive : Client zk → Type 0
  IsLive c = (c.is_connected && c.handle) ≡ true

  pub live_then {κ} :
      {B : Type κ} (k : M zk B) (c : Client zk) → IsLive c → (require_connected >> k) c ≡ k c
  unfolding require_connected ◌>>◌
  live_then k c live = ap (λ b. follow (λ _. k) (c, if b then ok tt else throw not_connected)) live

  pub check_then {κ} :
      {B : Type κ} (what : Bytes) (code : Code) (k : M zk B) (c : Client zk)
      → code ≡ zok
      → (check (is_ok code) what code >> k) c ≡ k c
  unfolding check lift ◌>>◌
  check_then what code k c h =
      ap (λ code. follow (λ _. k) (c, if is_ok code then ok tt else throw (what ++ zk.zerror code)))
        h

  -- A test and a constant leave the client as it is.
  pub check-lift_same :
      (passed : Bool) (what : Bytes) (code : Code) (r : Result Bytes) (c : Client zk)
      → ((check passed what code >> lift r) c).0 ≡ c
  unfolding check lift ◌>>◌
  check-lift_same true what code r c = refl
  check-lift_same false what code r c = refl
