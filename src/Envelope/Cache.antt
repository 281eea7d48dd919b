-- ===== src/Envelope/Cache.antt =====
-- src/zippylog/envelope.cpp, `Envelope::GetMessage`: the cache of parsed messages does not show.
use zippylog.Prelude.{
  ℕ, zero, suc, ◌+◌, ◌-◌, ◌≡◌, refl, sym, ap, subst, ◌∙◌, ◌⊎◌, inl, inr, true, ◌||◌, Option, none,
  some, some-injective, List, [], ◌∷◌, ◌++◌, Text, length, set, replicate, ltb, arith, Bool-cases,
  get_elem?-none,
}
use zippylog.Envelope.{Envelope, entry_at, cache_for, parse_at, fill, get_cached, get_message}

module _ {Message : Type 0} where
  entry-replicate : (n i : ℕ) → entry_at {Message = Message} (replicate n none) i ≡ none
  entry-replicate zero i = refl
  entry-replicate (suc n) zero = refl
  entry-replicate (suc n) (suc i) = entry-replicate n i

  entry-append :
      (c : List (Option Message)) (n i : ℕ) → entry_at (c ++ replicate n none) i ≡ entry_at c i
  entry-append [] n i = entry-replicate n i
  entry-append (m ∷ c) n zero = refl
  entry-append (m ∷ c) n (suc i) = entry-append c n i

  entry-set :
      (c : List (Option Message)) (i j : ℕ) (m m' : Message)
      → entry_at (set c i (some m)) j ≡ some m'
      → ((j ≡ i) × (m ≡ m')) ⊎ (entry_at c j ≡ some m')
  entry-set [] i j m m' h = inr h
  entry-set (x ∷ c) zero zero m m' h = inl (refl, some-injective _ _ h)
  entry-set (x ∷ c) zero (suc j) m m' h = inr h
  entry-set (x ∷ c) (suc i) zero m m' h = inr h
  entry-set (x ∷ c) (suc i) (suc j) m m' h = elim (entry-set c i j m m' h) [
    | inl k ↦ inl (ap suc k.0, k.1)
    | inr k ↦ inr k
  ]

  -- What an array of cached messages holds, with no array for none.
  abbrev cached : Option (List (Option Message)) → ℕ → Option Message
  cached none i = none
  cached (some c) i = entry_at c i

  cache_for-cached :
      (n : ℕ) (o : Option (List (Option Message))) (i : ℕ) → entry_at (cache_for n o) i ≡ cached o i
  unfolding cache_for
  cache_for-cached n none i = entry-replicate n i
  cache_for-cached n (some c) i = elim (Bool-cases (ltb (length c) n)) [
    | inl e ↦ rw e (entry-append c (n - length c) i)
    | inr e ↦ rw e refl
  ]

  module _ (parse : ℕ → ℕ → Text → Option Message) where
    -- Each cached message is what the message at its index parses to.
    unfoldable pub IsCached : Envelope Message → Type 0
    IsCached e = (i : ℕ) (m : Message) → cached e.messages i ≡ some m → parse_at parse e i ≡ some m

    parse_at-none :
        (index : ℕ) (e : Envelope Message)
        → (ltb (length e.message) (index + 1)
            || ltb (length e.message_namespace) (index + 1)
            || ltb (length e.message_type) (index + 1))
          ≡ true
        → parse_at parse e index ≡ none
    unfolding parse_at
    parse_at-none index e h = ground (
      arith,
      get_elem?-none e.message_namespace index,
      get_elem?-none e.message_type index,
      get_elem?-none e.message index,
    )

    found :
        (index : ℕ) (e : Envelope Message) (o : Option Message)
        → IsCached e
        → parse_at parse e index ≡ o
        → IsCached (fill index (cache_for (length e.message) e.messages) o e).1
    unfolding IsCached fill parse_at
    found index e none h p =
        λ i m q. h i m (sym (cache_for-cached (length e.message) e.messages i) ∙ q)
    found index e (some m) h p = λ i m' q.
        elim (entry-set (cache_for (length e.message) e.messages) index i m m' q) [
          | inl b ↦ subst (λ j. parse_at parse e j ≡ some m') (sym b.0) (p ∙ ap some b.1)
          | inr b ↦ h i m' (sym (cache_for-cached (length e.message) e.messages i) ∙ b)
        ]

    -- What `GetMessage` is to be for an envelope and an index.
    IsFaithful : ℕ → Envelope Message → Option Message × Envelope Message → Type 0
    IsFaithful index e r =
        (r.0 ≡ parse_at parse e index) × IsCached r.1 × (record r.1 { messages = e.messages } ≡ e)

    fill-IsFaithful :
        (index : ℕ) (e : Envelope Message) (o : Option Message)
        → IsCached e
        → parse_at parse e index ≡ o
        → IsFaithful index e (fill index (cache_for (length e.message) e.messages) o e)
    unfolding IsFaithful fill
    fill-IsFaithful index e none h p = (sym p, found index e none h p, refl)
    fill-IsFaithful index e (some m) h p = (sym p, found index e (some m) h p, refl)

    cached-IsFaithful :
        (index : ℕ) (e : Envelope Message) (o : Option Message)
        → IsCached e
        → entry_at (cache_for (length e.message) e.messages) index ≡ o
        → IsFaithful index e (get_cached parse index (cache_for (length e.message) e.messages) o e)
    unfolding get_cached IsFaithful parse_at IsCached
    cached-IsFaithful index e none h k = fill-IsFaithful index e (parse_at parse e index) h refl
    cached-IsFaithful index e (some m) h k = (
      sym (h index m (sym (cache_for-cached (length e.message) e.messages index) ∙ k)),
      λ i m' q. h i m' (sym (cache_for-cached (length e.message) e.messages i) ∙ q),
      refl,
    )

    -- Where the cache holds what the messages parse to, `GetMessage` gives what the message at the
    -- index parses to, whether it was cached or not, none where there is no such message; the cache
    -- that it leaves is of that kind too, and the envelope is the same but for the cache.
    pub get_message-IsCached :
        (index : ℕ) (e : Envelope Message)
        → IsCached e
        → ((get_message parse index e).0 ≡ parse_at parse e index)
          × IsCached (get_message parse index e).1
          × (record (get_message parse index e).1 { messages = e.messages } ≡ e)
    unfolding get_message IsFaithful
    get_message-IsCached index e h =
        elim (Bool-cases (
          ltb (length e.message) (index + 1)
          || ltb (length e.message_namespace) (index + 1)
          || ltb (length e.message_type) (index + 1))) [
            | inl g ↦ rw g (sym (parse_at-none index e g), h, refl)
            | inr g ↦ rw g (
                cached-IsFaithful index e (entry_at (cache_for (length e.message) e.messages) index)
                  h refl)
          ]
