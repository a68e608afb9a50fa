-- ===== src/Qiniu/Freshness.antt =====
-- About getCacheValueByKey in qiniu/kodo.go.
use kubernetes_csi_driver.Base.{
  ℕ, ◌+◌, ◌≡◌, ◌<◌, refl, ap, ◌∙◌, All, false, List, [], ◌∷◌, none, some, ok, lt→ltb,
}
use kubernetes_csi_driver.Text.{Str, str_eq, str_eq_refl}
use kubernetes_csi_driver.Qiniu.Cache.{CacheValue, CacheMap, load, store}
use kubernetes_csi_driver.Qiniu.Client.{
  Cached, Network, World, Client, after, fresh_value, keep_value, if_absent, get_cached,
}

-- What other calls have stored since then, the last one first.
abbrev pub stored : {V : Type 0} → List (Str × CacheValue V) → CacheMap V → CacheMap V
stored [] m = m
stored ((k, c) ∷ others) m = store k c (stored others m)

load-stored :
    {V : Type 0} (key : Str) (others : List (Str × CacheValue V)) (m : CacheMap V)
    → All (λ e. str_eq e.0 key ≡ false) others
    → load key (stored others m) ≡ load key m
unfolding load store
load-stored key [] m _ = refl
load-stored key ((k, c) ∷ others) m (other, all) =
    rw (other, load, store) (load-stored key others m all)

module _ {S Url E : Type 0} (net : Network S Url E) (key : Str) where
  fresh_value-absent :
      (w : World S Url E) → load key w.cache ≡ none → fresh_value net key w ≡ (ok none, w)
  unfolding fresh_value
  fresh_value-absent w absent = rw (absent, fresh_value) refl

  fresh_value-found :
      (u : World S Url E) (c : CacheValue (Cached Url))
      → load key u.cache ≡ some c
      → (net.clock u.cloud).0 < c.deadline
      → fresh_value net key u ≡ (ok (some c.value), record u { cloud = (net.clock u.cloud).1 })
  unfolding fresh_value
  fresh_value-found u c found early =
      rw (found, fresh_value, lt→ltb (net.clock u.cloud).0 c.deadline early) refl

  kept_first :
      (ttl : ℕ) (fn : Client S Url E (Cached Url)) (w w1 : World S Url E) (v : Cached Url)
      → load key w.cache ≡ none
      → fn w ≡ (ok v, w1)
      → get_cached net key ttl fn w ≡ keep_value net key ttl v w1
  unfolding get_cached if_absent after
  kept_first ttl fn w w1 v absent fetched =
      let miss = fresh_value-absent w absent in
      ap
        (λ o. after o (λ first. if_absent net first (λ x.
          after (fresh_value net key x)
            (λ second. if_absent net second (λ y. after (fn y) (keep_value net key ttl))))))
        miss
      ∙ ap
          (λ o.
            after o (λ second. if_absent net second (λ y. after (fn y) (keep_value net key ttl))))
          miss
      ∙ ap (λ o. after o (keep_value net key ttl)) fetched

  -- A value that was fetched, since the cache had none for its key, is returned to every later call
  -- for that key before the deadline, whatever was stored for other keys since then, whatever the
  -- cloud would answer by then: nothing is requested, and the cache is left as it is.
  pub get_cached-fresh :
      (ttl ttl' : ℕ) (fn fn' : Client S Url E (Cached Url)) (w w1 u : World S Url E)
      (v : Cached Url) (others : List (Str × CacheValue (Cached Url)))
      → load key w.cache ≡ none
      → fn w ≡ (ok v, w1)
      → All (λ e. str_eq e.0 key ≡ false) others
      → u.cache ≡ stored others (get_cached net key ttl fn w).1.cache
      → (net.clock u.cloud).0 < (net.clock w1.cloud).0 + ttl
      → ((get_cached net key ttl fn w).0 ≡ ok v)
        × (get_cached net key ttl' fn' u ≡ (ok v, record u { cloud = (net.clock u.cloud).1 }))
  unfolding get_cached if_absent after keep_value load store
  get_cached-fresh ttl ttl' fn fn' w w1 u v others absent fetched apart later early =
      let first = kept_first ttl fn w w1 v absent fetched in
      let entry : CacheValue (Cached Url) = record {
        value = v;
        deadline = (net.clock w1.cloud).0 + ttl;
      } in
      let found : load key u.cache ≡ some entry =
        ap (load key) (later ∙ ap (λ o. stored others o.1.cache) first)
        ∙ load-stored key others (store key entry w1.cache) apart
        ∙ rw (str_eq_refl key, load, store) refl in
      (
        ap (λ o. o.0) first,
        ap
            (λ o. after o (λ first'. if_absent net first' (λ x.
              after (fresh_value net key x)
                (λ second. if_absent net second (λ y. after (fn' y) (keep_value net key ttl'))))))
            (fresh_value-found u entry found early),
      )
