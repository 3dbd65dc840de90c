-- ===== src/Store/Catalog.antt =====
-- hub/store/catalog.go: the in-memory CatalogStore, keyed by check ID.
use libre_ping.Base.{Bool, Option, List, [], map, Str, str_dec, str_lt, Map, get, put}
use libre_ping.Base.Sorting.{Sorting}
use libre_ping.Protocol.{SignedCatalogEntry}

pub record MemCatalog : Type 0 where
  pub entries : Map Str SignedCatalogEntry

abbrev pub new_mem_catalog : MemCatalog
new_mem_catalog = record { entries = [] }

unfoldable pub upsert_check : MemCatalog → SignedCatalogEntry → MemCatalog
upsert_check m sc = record m { entries = put str_dec sc.entry.spec.id sc m.entries }

unfoldable pub get_check : MemCatalog → Str → Option SignedCatalogEntry
get_check m check_id = get str_dec check_id m.entries

abbrev pub by_id : SignedCatalogEntry → SignedCatalogEntry → Bool
by_id a b = str_lt a.entry.spec.id b.entry.spec.id

unfoldable pub list_checks : Sorting → MemCatalog → List SignedCatalogEntry
list_checks s m = s.sort SignedCatalogEntry by_id (map (λ e. e.1) m.entries)
