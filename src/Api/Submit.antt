-- ===== src/Api/Submit.antt =====
-- What becomes of a result that a probe submits to hub/api/server.go.
use libre_ping.Base.{
  Option-cases, In-map_inv, subst, In-keys_of, ℕ, zero, suc, ◌≤◌, ◌≡◌, refl, ◌≢◌, ◌↔◌, ◌⊎◌, inl,
  inr, Bool, true, false, ◌&&◌, Option, none, some, List, [], ◌∷◌, ◌++◌, arith, Bool-cases, length,
  drop, In, ℤ, pos, negsuc, ltb_ℤ, ◌≤ℤ◌, str_dec, get, In-append_right, length-append, split_if,
}
use libre_ping.Base.Lists.{drop}
use libre_ping.Protocol.{SignedResult, Result, ok, passes}
use libre_ping.Protocol.Verify.{verify_result}
use libre_ping.Trust.{allow}
use libre_ping.Interest.{holds}
use libre_ping.Admit
use libre_ping.Outbox
use libre_ping.Outbox.{Outbox, Item, keep_last}
use libre_ping.Hub.{Env, look, ingest}
use libre_ping.Mesh.{handle_result}
use libre_ping.Mesh.Gate.{IsTrusted, passes_ok}
use libre_ping.Mesh.Events.{ingest_at}
use libre_ping.Store.Results.Dedupe.{key, IsValid}
use libre_ping.Store.Results.{MemStore, insert, dedupe_key}
use libre_ping.Api.{
  Server, publish_result, push_to_holders, handle_submit, keep_result, status_accepted,
}

module _ (e : Env) where
  abbrev admits : SignedResult → ℤ → Server → Bool
  admits sr now s = passes (Admit.result (some (look s.stores.catalog)) sr now)

  -- The signature, the policy and the admission check, in the order of the code.
  abbrev accepts : SignedResult → ℤ → Server → Bool
  accepts sr now s =
      passes (verify_result e.crypto e.json sr)
      && (allow e.policy sr.content.probe_id && admits sr now s)

  submit_refused :
      (sr : SignedResult) (now : ℤ) (s : Server)
      → accepts sr now s ≡ false
      → ((handle_submit e (some sr) now s).server ≡ s)
        × ((handle_submit e (some sr) now s).sent ≡ [])
        × ((handle_submit e (some sr) now s).code ≢ status_accepted)
  unfolding handle_submit
  submit_refused sr now s h = ground arith

  submit_accepted :
      (sr : SignedResult) (now : ℤ) (s : Server)
      → accepts sr now s ≡ true
      → handle_submit e (some sr) now s ≡ keep_result e sr now s
  unfolding handle_submit
  submit_accepted sr now s h = ground arith

  code-keep_result :
      (sr : SignedResult) (now : ℤ) (s : Server) → (keep_result e sr now s).code ≡ status_accepted
  unfolding keep_result
  code-keep_result sr now s = ground arith

  passes_of_ok : {E : Type 0} (r : Result E (Unit {0})) → r ≡ ok tt → passes r ≡ true
  passes_of_ok r h = rw h refl

  -- A submission is accepted exactly if the result is signed by the probe that it names, the trust
  -- policy admits the probe, and the admission check passes against the hub's catalog.
  pub submit_iff :
      (sr : SignedResult) (now : ℤ) (s : Server)
      → ((handle_submit e (some sr) now s).code ≡ status_accepted)
        ↔ (IsTrusted e sr × (Admit.result (some (look s.stores.catalog)) sr now ≡ ok tt))
  submit_iff sr now s = elim (Bool-cases (accepts sr now s)) [
    | inl t ↦ (
      λ _. (
        (passes_ok (verify_result e.crypto e.json sr) (ground arith), ground arith),
        passes_ok (Admit.result (some (look s.stores.catalog)) sr now) (ground arith),
      ),
      λ _. rw (submit_accepted sr now s t) (code-keep_result sr now s),
    )
    | inr f ↦ (
      λ h. absurd ((submit_refused sr now s f).2 h),
      λ ((v, a), m). absurd (
          let p = passes_of_ok (verify_result e.crypto e.json sr) v in
          let q = passes_of_ok (Admit.result (some (look s.stores.catalog)) sr now) m in
          ground arith),
    )
  ]

  -- A refused submission changes nothing and sends nothing.
  pub submit_refused_unchanged :
      (body : Option SignedResult) (now : ℤ) (s : Server)
      → (handle_submit e body now s).code ≢ status_accepted
      → ((handle_submit e body now s).server ≡ s) × ((handle_submit e body now s).sent ≡ [])
  unfolding handle_submit
  submit_refused_unchanged none now s h = (refl, refl)
  submit_refused_unchanged (some sr) now s h = elim (Bool-cases (accepts sr now s)) [
    | inl t ↦ absurd (h (rw (submit_accepted sr now s t) (code-keep_result sr now s)))
    | inr f ↦ let r = submit_refused sr now s f in (r.0, r.1)
  ]

  -- For the stores, a submission is the same as the result's arrival on the mesh: accepted or
  -- refused, held by this hub or not.
  pub submit-handle_result :
      (sr : SignedResult) (now : ℤ) (s : Server)
      → (handle_submit e (some sr) now s).server.stores
        ≡ handle_result e (ingest_at e now) sr s.stores
  unfolding handle_submit keep_result handle_result ingest_at ingest
  submit-handle_result sr now s = ground arith

In-drop_last : (x : Item) (n : ℕ) (xs : List Item) → n ≤ length xs → In x (drop n (xs ++ (x ∷ [])))
In-drop_last x zero xs h = In-append_right x xs (x ∷ []) (inl refl)
In-drop_last x (suc n) [] h = absurd (omega arith)
In-drop_last x (suc n) (y ∷ ys) h = In-drop_last x n ys (omega arith)

In-keep_last :
    (x : Item) (max_n : ℤ) (xs : List Item)
    → pos 1 ≤ℤ max_n
    → In x (keep_last max_n (xs ++ (x ∷ [])))
In-keep_last x (negsuc n) xs h = absurd (omega arith)
In-keep_last x (pos n) xs h =
    split_if (In x) (ltb_ℤ (pos n) (pos (length (xs ++ (x ∷ [])))))
      (λ l. In-drop_last x _ xs (ground (arith, length-append xs (x ∷ []))))
      (λ _. In-append_right x xs (x ∷ []) (inl refl))

-- After an Insert the store holds a result with the key of the one that came in.
In-insert :
    (m : MemStore) (sr : SignedResult)
    → IsValid m
    → (x : SignedResult) × In x (insert m sr).all × (dedupe_key x.content ≡ dedupe_key sr.content)
unfolding insert
In-insert m sr v = elim (Option-cases (get str_dec (dedupe_key sr.content) m.seen)) [
  | inl q ↦ (sr, rw (q, insert) (In-append_right sr m.all (sr ∷ []) (inl refl)), refl)
  | inr (u, q) ↦
      let (x, i, e) = In-map_inv key (dedupe_key sr.content) m.all (
        subst (In (dedupe_key sr.content)) v.listed
          (In-keys_of str_dec (dedupe_key sr.content) u m.seen q)) in
      (x, rw (q, insert) i, e)
]

module _ (e : Env) where
  accepted_passes :
      (sr : SignedResult) (now : ℤ) (s : Server)
      → (handle_submit e (some sr) now s).code ≡ status_accepted
      → accepts e sr now s ≡ true
  accepted_passes sr now s a = elim (Bool-cases (accepts e sr now s)) [
    | inl t ↦ t
    | inr f ↦ absurd ((submit_refused e sr now s f).2 a)
  ]

  -- A result that the hub accepts is not lost: it is published on the mesh, and either the hub's store
  -- then holds a result with its dedupe key, or the hub has it in its outbox and pushes it to the
  -- holders. The set of seen keys and the list of results must be in step before, and the outbox must be
  -- there, with room for at least one item.
  pub submit_retained :
      (sr : SignedResult) (now : ℤ) (s : Server) (o : Outbox)
      → IsValid s.stores.results
      → s.outbox ≡ some o
      → pos 1 ≤ℤ o.max_n
      → (handle_submit e (some sr) now s).code ≡ status_accepted
      → In (publish_result sr) (handle_submit e (some sr) now s).sent
        × (((x : SignedResult) × In x (handle_submit e (some sr) now s).server.stores.results.all
              × (dedupe_key x.content ≡ dedupe_key sr.content))
            ⊎ ((kept : Outbox) × ((handle_submit e (some sr) now s).server.outbox ≡ some kept)
                × In (record { sr = sr; at = now }) kept.items
                × In (push_to_holders sr) (handle_submit e (some sr) now s).sent))
  unfolding keep_result Outbox.add
  submit_retained sr now s o v h m a =
      let t = accepted_passes sr now s a in
      rw (submit_accepted e sr now s t)
        (elim (Bool-cases (holds e.crypto s.stores.interest sr.content.check_id)) [
          | inl q ↦ rw (q, keep_result) (inl refl, inl (In-insert s.stores.results sr v))
          | inr q ↦
              rw (q, keep_result, h, Outbox.add)
                (
                  inr (inl refl),
                  inr (
                    _,
                    refl,
                    In-keep_last (record { sr = sr; at = now }) o.max_n o.items m,
                    inl refl,
                  ),
                )
        ])
