-- ===== src/Channel/Lifecycle.antt =====
-- The constructor of core/channel/xrpc_channel.cc with its Init. Its destructor is the same as the server's.
use xrpc.Base.{◌≡◌, refl, Bool, true, false, Option, [], Bytes, codes, subst, Result, ok, throw}
use xrpc.Base.Dict.{Dict}
use xrpc.Base.Int.{ℤ}
use xrpc.Base.Decimal.{stoi}
use xrpc.Config.{load, get}
use xrpc.Registry.ZooKeeper.{ZooKeeper}
use xrpc.Registry.Session.{
  Client, new_client, configured, config_path, start, started, after_wait, wait_connected, follow,
  host_of, stop,
}
use xrpc.Registry.Chains.{IsLive}

module _ (zk : ZooKeeper) where
  -- After an exception the client is destroyed, by its Stop.
  abbrev pub settled : Client zk × Result (Unit {0}) → zk.State × Result (Client zk)
  settled (c, ok _) = (c.zoo, ok c)
  settled (c, throw e) = ((stop zk c).zoo, throw e)

  abbrev pub loaded : Client zk → Result (Dict Bytes) → zk.State × Result (Client zk)
  loaded c (ok config) = settled (start zk c)
  loaded c (throw e) = ((stop zk c).zoo, throw e)

  abbrev pub made :
      Bytes → Option Bytes → zk.State → Result (Client zk) → zk.State × Result (Client zk)
  made config_file text z (ok c) = loaded c (load config_file text [])
  made config_file text z (throw e) = (z, throw e)

  -- The texts are those of the channel's configuration file and of the registry client's.
  unfoldable pub open_channel :
      Bytes → Option Bytes → Option Bytes → zk.State → zk.State × Result (Client zk)
  open_channel config_file text registry_text z =
      made config_file text z (new_client zk registry_text z)

  -- A client that is ready: connected, with nothing cached or watched.
  pub record IsNew (c : Client zk) : Type 0 where
    pub live : IsLive c
    pub uncached : c.service_cache ≡ []
    pub unwatched : c.watchers ≡ []

  -- The client of a part that returned is new.
  abbrev Readies {ℓ} : {A : Type ℓ} → Client zk × Result A → Type 0
  Readies (c, ok _) = IsNew c
  Readies (c, throw e) = Unit {0}

  abbrev Opens : zk.State × Result (Client zk) → Type 0
  Opens (z, ok c) = IsNew c
  Opens (z, throw e) = Unit {0}

  -- Nothing is cached or watched yet.
  abbrev IsBare : Client zk → Type 0
  IsBare c = (c.service_cache ≡ []) × (c.watchers ≡ [])

  abbrev Bares : Result (Client zk) → Type 0
  Bares (ok c) = IsBare c
  Bares (throw e) = Unit {0}

  after_wait-Readies :
      (c : Client zk) (r : zk.State × Bool) → IsBare c → Readies (after_wait zk c r)
  after_wait-Readies c (z, true) w = record { live = refl; uncached = w.0; unwatched = w.1 }
  after_wait-Readies c (z, false) w = tt

  started-Readies : (c : Client zk) (r : zk.State × Bool) → IsBare c → Readies (started zk c r)
  unfolding started
  started-Readies c (z, true) w = after_wait-Readies c (wait_connected zk 3 z c.is_connected) w
  started-Readies c (z, false) w = tt

  start-Readies : (c : Client zk) → IsBare c → Readies (start zk c)
  unfolding start
  start-Readies c w = go (stoi (get (codes "zookeeper_timeout_ms") (codes "6000") c.config))
    where
      opened : ℤ → Client zk → Client zk × Result (Unit {0})
      opened timeout c' = started zk c' (zk.init c'.zoo (host_of c'.config) timeout)

      go : (r : Result ℤ) → Readies (follow opened (c, r))
      go (ok timeout) = started-Readies c (zk.init c.zoo (host_of c.config) timeout) w
      go (throw e) = tt

  settled-Opens : (r : Client zk × Result (Unit {0})) → Readies r → Opens (settled r)
  settled-Opens (c, ok _) w = w
  settled-Opens (c, throw e) w = tt

  made-Opens :
      (config_file : Bytes) (text : Option Bytes) (z : zk.State) (r : Result (Client zk))
      → ((c : Client zk) → r ≡ ok c → IsBare c)
      → Opens (made config_file text z r)
  made-Opens config_file text z (throw e) w = tt
  made-Opens config_file text z (ok c) w = loaded-Opens c (load config_file text []) (w c refl)
    where
      loaded-Opens : (c : Client zk) (r : Result (Dict Bytes)) → IsBare c → Opens (loaded c r)
      loaded-Opens c (ok config) w = settled-Opens (start zk c) (start-Readies c w)
      loaded-Opens c (throw e) w = tt

  new_client-IsBare :
      (text : Option Bytes) (z : zk.State) (c : Client zk) → new_client zk text z ≡ ok c → IsBare c
  unfolding new_client
  new_client-IsBare text z c h = subst Bares h (bare (load config_path text []))
    where
      bare : (r : Result (Dict Bytes)) → Bares (configured zk z r)
      bare (ok config) = (refl, refl)
      bare (throw e) = tt

  -- A channel whose constructor returned has a client that is connected, with nothing cached.
  pub open_channel-IsNew :
      (config_file : Bytes) (text registry_text : Option Bytes) (z z' : zk.State) (d : Client zk)
      → open_channel config_file text registry_text z ≡ (z', ok d)
      → IsNew d
  unfolding open_channel
  open_channel-IsNew config_file text registry_text z z' d h = subst Opens h (
      made-Opens config_file text z (new_client zk registry_text z)
        (new_client-IsBare registry_text z))
