-- ===== src/BridgeBinding/OwnerChats/Latest.antt =====
-- src/bridge_binding_ledger.rs: the chat that the owner used last is the one that is found.
use agents_router.Prelude.{
  ℕ, ◌<◌, ◌≡◌, refl, ap, ◌∙◌, inl, inr, Bool, true, Option, none, some, Option-cases, List, [], ◌∷◌,
  ◌++◌, All, All-filter, find, find-holds, filter, max_by_key, max_by_key-All, update_first, arith,
  Bool-cases, eq_refl,
}
use agents_router.Exec.{Result, ok, err}
use agents_router.Ledger.{Backend}
use agents_router.Ledger.Laws.{state-commit, result-commit, Result-cases}
use agents_router.BridgeBinding.Records.{
  OwnerDirectChatRecord, OwnerDirectChatInput, BridgeBindingLedgerFile, validate_present, and_next,
}
use agents_router.BridgeBinding.OwnerChats.{
  validate_owner_direct_chat_input, owner_direct_chat_matches, new_chat, touched, ChatLedger,
  remember_found, remember_owner_direct_chat_at, of_provider, owner_direct_chat_for_provider,
}

module _ {ℓ} {A : Type ℓ} (key : A → ℕ) (q : A → Bool) (now : ℕ) where
  -- One that is later than all others, in front of them and behind them
  first_is_latest :
      (x : A) (xs : List A)
      → key x ≡ now
      → q x ≡ true
      → All (λ y. key y < now) xs
      → max_by_key key (filter q (x ∷ xs)) ≡ some x
  unfolding filter max_by_key
  first_is_latest x xs k e h = elim (Option-cases (max_by_key key (filter q xs))) [
    | inl none' ↦ rw (e, none') refl
    | inr (z, f) ↦
        let earlier =
          max_by_key-All key (λ y. key y < now) (filter q xs) z
            (All-filter q (λ y. key y < now) xs h) f in
        rw (e, f) (ground (arith, earlier))
  ]

  kept_latest :
      (y x : A) (xs : List A)
      → key x ≡ now
      → key y < now
      → max_by_key key (filter q xs) ≡ some x
      → max_by_key key (filter q (y ∷ xs)) ≡ some x
  unfolding filter max_by_key
  kept_latest y x xs k h e = elim (Bool-cases (q y)) [
    | inl shown ↦ rw (shown, e) (ground arith)
    | inr hidden ↦ rw hidden e
  ]

  appended_is_latest :
      (x : A) (xs : List A)
      → key x ≡ now
      → q x ≡ true
      → All (λ y. key y < now) xs
      → max_by_key key (filter q (xs ++ x ∷ [])) ≡ some x
  appended_is_latest x [] k e h = first_is_latest x [] k e tt
  appended_is_latest x (y ∷ xs) k e h =
      kept_latest y x (xs ++ x ∷ []) k h.0 (appended_is_latest x xs k e h.1)

  updated_is_latest :
      (m : A → Bool) (f : A → A) (x : A) (xs : List A)
      → find m xs ≡ some x
      → key (f x) ≡ now
      → q (f x) ≡ true
      → All (λ y. key y < now) xs
      → max_by_key key (filter q (update_first m f xs)) ≡ some (f x)
  unfolding find update_first
  updated_is_latest m f x [] e k d h = ground arith
  updated_is_latest m f x (y ∷ xs) e k d h = elim (Bool-cases (m y)) [
    | inl here ↦
        let same : y ≡ x = ground arith in rw (here, same) (first_is_latest (f x) xs k d h.1)
    | inr later ↦ rw later (
        kept_latest y (f x) (update_first m f xs) k h.0
          (updated_is_latest m f x xs (ground arith) k d h.1))
  ]

both_valid : (r s : Result (Unit {0})) → and_next r s ≡ ok tt → (r ≡ ok tt) × (s ≡ ok tt)
both_valid (ok t) s h = (refl, h)
both_valid (err e) s h = ground arith

matched_provider :
    (i : OwnerDirectChatInput) (r : OwnerDirectChatRecord)
    → owner_direct_chat_matches i r ≡ true
    → of_provider i.provider_id i.provider_type r ≡ true
unfolding owner_direct_chat_matches
matched_provider i r h = ground arith

module _ {Raw : Type 0} (b : Backend BridgeBindingLedgerFile Raw) where
  looked_up :
      (i : OwnerDirectChatInput) (r : OwnerDirectChatRecord) (l : ChatLedger b)
      → validate_owner_direct_chat_input i ≡ ok tt
      → max_by_key
          (λ c. c.updated_at)
          (filter (of_provider i.provider_id i.provider_type) l.state.owner_direct_chats)
        ≡ some r
      → (owner_direct_chat_for_provider b i.provider_id i.provider_type l).0 ≡ ok (some r)
  unfolding owner_direct_chat_for_provider validate_owner_direct_chat_input
  looked_up i r l v e =
      let (id_valid, more) = both_valid (validate_present "provider_id" i.provider_id) _ v in
      let type_valid = both_valid (validate_present "provider_type" i.provider_type) _ more in
      rw (id_valid, type_valid.0, e) refl

  remember_found-latest :
      (o : Option OwnerDirectChatRecord) (i : OwnerDirectChatInput) (now : ℕ) (l : ChatLedger b)
      (r : OwnerDirectChatRecord)
      → find (owner_direct_chat_matches i) l.state.owner_direct_chats ≡ o
      → All (λ c. c.updated_at < now) l.state.owner_direct_chats
      → (remember_found b o i now l).0 ≡ ok r
      → max_by_key
          (λ c. c.updated_at)
          (filter
            (of_provider i.provider_id i.provider_type)
            (remember_found b o i now l).1.state.owner_direct_chats)
        ≡ some r
  unfolding remember_found
  remember_found-latest none i now l r e h k =
      let chats = l.state.owner_direct_chats ++ new_chat i now ∷ [] in
      let f = record l.state { owner_direct_chats = chats } in
      rw (state-commit b f (new_chat i now) l) (
        appended_is_latest (λ c. c.updated_at) (of_provider i.provider_id i.provider_type) now
          (new_chat i now) l.state.owner_direct_chats refl
          (ground (arith, eq_refl i.provider_id, eq_refl i.provider_type)) h
        ∙ ap some (result-commit b f (new_chat i now) r l k))
  remember_found-latest (some x) i now l r e h k =
      let chats =
        update_first (owner_direct_chat_matches i) (touched now) l.state.owner_direct_chats in
      let f = record l.state { owner_direct_chats = chats } in
      rw (state-commit b f (touched now x) l) (
        updated_is_latest (λ c. c.updated_at) (of_provider i.provider_id i.provider_type) now
          (owner_direct_chat_matches i) (touched now) x l.state.owner_direct_chats e refl
          (matched_provider i x
            (find-holds (owner_direct_chat_matches i) l.state.owner_direct_chats x e))
          h
        ∙ ap some (result-commit b f (touched now x) r l k))

  -- After a direct chat of the owner is remembered, later than every chat that the ledger holds, it is
  -- the one that is found for its provider.
  pub remembered_chat_is_found :
      (i : OwnerDirectChatInput) (now : ℕ) (l : ChatLedger b) (r : OwnerDirectChatRecord)
      → (remember_owner_direct_chat_at b i now l).0 ≡ ok r
      → All (λ c. c.updated_at < now) l.state.owner_direct_chats
      → (owner_direct_chat_for_provider b i.provider_id i.provider_type
          (remember_owner_direct_chat_at b i now l).1).0
        ≡ ok (some r)
  unfolding remember_owner_direct_chat_at
  remembered_chat_is_found i now l r k h =
      elim (Result-cases (validate_owner_direct_chat_input i)) [
        | inl (t, v) ↦
            rw v (looked_up i r _ v (remember_found-latest _ i now l r refl h (ground arith)))
        | inr (x, v) ↦ ground arith
      ]
