-- ===== src/UnorderedMap/Related.antt =====
-- An unordered_map database beside a map database that clients cannot tell from it.
use mochi_rkv.Prelude.{
  ℕ, ◌≡◌, refl, sym, ◌∙◌, List, [], ◌∷◌, Option, none, some, Bool-cases, inl, inr,
}
use mochi_rkv.Common.{Bytes, Mode, Ret}
use mochi_rkv.Bytes.{IsStrictTotal}
use mochi_rkv.Watcher.{Waiting, notify_key, add_key}
use mochi_rkv.OrderedMap
use mochi_rkv.OrderedMap.{IsSorted}
use mochi_rkv.OrderedMap.Sorted.{IsSorted-emplace, IsSorted-modify, IsSorted-erase}
use mochi_rkv.OrderedMap.Lookup
use mochi_rkv.OrderedMap.Lookup.{or_else, map_value}
use mochi_rkv.HashMap
use mochi_rkv.HashMap.{IsUnique}
use mochi_rkv.HashMap.Laws.{
  if_same-same_key, find-emplace, find-modify, find-erase, IsUnique-emplace, IsUnique-modify,
  IsUnique-erase,
}
use mochi_rkv.MapBackend
use mochi_rkv.MapBackend.{MapDatabase, Looked, hit, miss, gave_up, waiting, is_present, after_look}
use mochi_rkv.MapBackend.Write as MapWrite
use mochi_rkv.UnorderedMap.{UnorderedMapDatabase, Wake}
use mochi_rkv.UnorderedMap.Write.{notified, erased}

-- The same values for the same keys, the map in order and the keys of the table unique, and the same
-- threads that wait.
pub record Related (u : UnorderedMapDatabase) (s : MapDatabase) : Type 0 where
  pub order : IsStrictTotal s.cmp
  pub sorted : IsSorted s.cmp s.db
  pub unique : IsUnique u.db
  pub values : (k : Bytes) → HashMap.find k u.db ≡ OrderedMap.find s.cmp k s.db
  pub migrated : u.has_migrated ≡ s.has_migrated
  pub watchers : u.watcher ≡ s.watcher

module _ (u : UnorderedMapDatabase) (s : MapDatabase) (r : Related u s) where
  pub Related-emplaced :
      (k v : Bytes)
      → Related
          (record u { db = HashMap.emplace k v u.db })
          (record s { db = OrderedMap.emplace s.cmp k v s.db })
  Related-emplaced k v = record {
    order = r.order;
    sorted = IsSorted-emplace s.cmp r.order k v s.db r.sorted;
    unique = IsUnique-emplace k v u.db r.unique;
    values = λ j.
        find-emplace k j v u.db
        ∙ rw (r.values k, r.values j)
            (sym (if_same-same_key s.cmp r.order k j (or_else (OrderedMap.find s.cmp k s.db) v) _)
              ∙ sym (OrderedMap.Lookup.find-emplace s.cmp r.order k j v s.db));
    migrated = r.migrated;
    watchers = r.watchers;
  }

  pub Related-modified :
      (k : Bytes) (f : Bytes → Bytes)
      → Related
          (record u { db = HashMap.modify k f u.db })
          (record s { db = OrderedMap.modify s.cmp k f s.db })
  Related-modified k f = record {
    order = r.order;
    sorted = IsSorted-modify s.cmp r.order k f s.db r.sorted;
    unique = IsUnique-modify k f u.db r.unique;
    values = λ j.
        find-modify k j f u.db
        ∙ rw (r.values k, r.values j)
            (sym (if_same-same_key s.cmp r.order k j (map_value f (OrderedMap.find s.cmp k s.db)) _)
              ∙ sym (OrderedMap.Lookup.find-modify s.cmp r.order k j f s.db));
    migrated = r.migrated;
    watchers = r.watchers;
  }

  pub Related-erased :
      (k : Bytes) (found : Option Bytes) → Related (erased k found u) (MapWrite.erased k found s)
  Related-erased k none = r
  Related-erased k (some v) = record {
    order = r.order;
    sorted = IsSorted-erase s.cmp r.order k s.db r.sorted;
    unique = IsUnique-erase k u.db r.unique;
    values = λ j.
        find-erase k j u.db r.unique
        ∙ rw (r.values j) (
            sym (if_same-same_key s.cmp r.order k j none _)
            ∙ sym (OrderedMap.Lookup.find-erase s.cmp r.order k j s.db r.sorted));
    migrated = r.migrated;
    watchers = r.watchers;
  }

  Related-watcher :
      (w : List Waiting) → Related (record u { watcher = w }) (record s { watcher = w })
  Related-watcher w = record {
    order = r.order;
    sorted = r.sorted;
    unique = r.unique;
    values = r.values;
    migrated = r.migrated;
    watchers = refl;
  }

  pub Related-notified :
      (mode : Mode) (k : Bytes) → Related (notified mode k u) (MapWrite.notified mode k s)
  Related-notified mode k = elim (Bool-cases mode.wait) [
    | inl e ↦ rw e (rw r.watchers (Related-watcher (notify_key k s.watcher)))
    | inr e ↦ rw e r
  ]

  pub Related-added :
      (addr : ℕ) (k : Bytes)
      → Related
          (record u { watcher = add_key addr k u.watcher })
          (record s { watcher = add_key addr k s.watcher })
  Related-added addr k = rw r.watchers (Related-watcher (add_key addr k s.watcher))

-- What the other threads do, to each of the two.
abbrev pub AllRelated : List Wake → List MapBackend.Wake → Type 0
AllRelated [] [] = Unit {0}
AllRelated [] (w ∷ ws) = ⊥
AllRelated (w ∷ ws) [] = ⊥
AllRelated ((st, u) ∷ ws) ((st', s) ∷ ws') = (st ≡ st') × Related u s × AllRelated ws ws'

-- The same outcome and output, and related databases.
abbrev pub Same {ℓ} : {O : Type ℓ} → Ret × O × UnorderedMapDatabase → Ret × O × MapDatabase → Type ℓ
Same (r, o, u) (r', o', s) = (r ≡ r') × (o ≡ o') × Related u s
