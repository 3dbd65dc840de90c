-- ===== src/Trust.antt =====
-- hub/trust/trust.go: which node IDs a hub admits results from. strings.TrimSpace and
-- strings.EqualFold are parameters.
use libre_ping.Base.{
  is_member, ◌≡◌, ◌≢◌, ◌↔◌, ◌⊎◌, inl, inr, Bool, true, false, not, ◌&&◌, Option, none, some, List,
  [], ◌∷◌, map, arith, if◌then◌else◌, In, Str, codes, str_dec, str_eq, Map, get, put, get-put,
}

pub data Policy : Type 0 where
  open_mesh : Policy
  allow_list : Map Str (Unit {0}) → Policy

unfoldable pub name : Policy → Str
name open_mesh = codes "open"
name (allow_list ids) = codes "allowlist"

unfoldable pub allow : Policy → Str → Bool
allow open_mesh id = true
allow (allow_list ids) id = is_member (get str_dec id ids)

-- A nil policy is `none`.
unfoldable pub trusted_storage : Option Policy → Str → Bool
unfolding name allow
trusted_storage none hub_id = false
trusted_storage (some p) hub_id = str_eq (name p) (codes "allowlist") && allow p hub_id

module _ (trim_space : Str → Str) where
  -- The loop of NewAllowList.
  unfoldable pub allow_ids : List Str → Map Str (Unit {0}) → Map Str (Unit {0})
  allow_ids [] m = m
  allow_ids (id ∷ ids) m =
      allow_ids ids
        (if not (str_eq (trim_space id) []) then put str_dec (trim_space id) tt m else m)

  unfoldable pub new_allow_list : List Str → Policy
  unfolding allow_ids
  new_allow_list ids = allow_list (allow_ids ids [])

  unfoldable pub from_config : (Str → Str → Bool) → Str → List Str → Policy
  unfolding new_allow_list
  from_config equal_fold mode ids =
      if equal_fold (trim_space mode) (codes "allowlist") then new_allow_list ids else open_mesh

  -- Some of the configured IDs, trimmed, is this one.
  abbrev pub Lists : List Str → Str → Type 0
  Lists ids id = In id (map trim_space ids)

  get-allow_ids :
      (id : Str) (ids : List Str) (m : Map Str (Unit {0}))
      → id ≢ []
      → (is_member (get str_dec id (allow_ids ids m)) ≡ true)
        ↔ ((is_member (get str_dec id m) ≡ true) ⊎ Lists ids id)
  unfolding get allow_ids
  get-allow_ids id [] m h = (λ e. inl e, λ e. elim e [ inl x ↦ x | inr x ↦ elim x [ ] ])
  get-allow_ids id (i ∷ ids) m h = elim (str_dec (trim_space i) []) [
    | yes p ↦ ground (arith, get-allow_ids id ids m h)
    | no p ↦ ground (
      arith,
      get-allow_ids id ids (put str_dec (trim_space i) tt m) h,
      get-put str_dec (trim_space i) id tt m,
    )
  ]

  -- A hub is trusted with storage exactly if the mode is the allowlist and the configured IDs,
  -- trimmed, include it.
  pub trusted_storage_iff :
      (equal_fold : Str → Str → Bool) (mode : Str) (ids : List Str) (id : Str)
      → id ≢ []
      → (trusted_storage (some (from_config equal_fold mode ids)) id ≡ true)
        ↔ ((equal_fold (trim_space mode) (codes "allowlist") ≡ true) × Lists ids id)
  unfolding trusted_storage from_config new_allow_list name allow get
  trusted_storage_iff equal_fold mode ids id h = ground (arith, get-allow_ids id ids [] h)

  -- Results of a node are admitted exactly if the mode is another one, or the configured IDs,
  -- trimmed, include it.
  pub allow_iff :
      (equal_fold : Str → Str → Bool) (mode : Str) (ids : List Str) (id : Str)
      → id ≢ []
      → (allow (from_config equal_fold mode ids) id ≡ true)
        ↔ ((equal_fold (trim_space mode) (codes "allowlist") ≡ false) ⊎ Lists ids id)
  unfolding from_config new_allow_list allow get
  allow_iff equal_fold mode ids id h = ground (arith, get-allow_ids id ids [] h)
