-- ===== src/Envelope/Overrun.antt =====
-- src/zippylog/envelope.cpp, `Envelope::RemoveMessage`: the caches that it reads behind the end of.
use zippylog.Prelude.{
  ℕ, zero, suc, ◌+◌, ◌-◌, ◌≤◌, ◌<◌, ◌≡◌, refl, ap, ◌∙◌, inl, inr, Option, some, List, Text, length,
  get_elem?, set, arith, faults, ◌==◌, get_elem?-none, Bool-cases,
}
use zippylog.Envelope.{Envelope, shift_cached, shift_down, remove_message}
use zippylog.Envelope.Shifting.{
  get_elem?-some, length-set, between, leb_yes, ltb_no, bind-done, bind-faults, read-done,
  shift_cached-moves, IsSafe, next_round,
}
use zippylog.Envelope.Removal.{IsEven}

module _ {Message : Type 0} where
  next_faults :
      (rounds k : ℕ) (e : Envelope Message) (b : Text) (n t : ℕ)
      → get_elem? e.message (suc k) ≡ some b
      → get_elem? e.message_namespace (suc k) ≡ some n
      → get_elem? e.message_type (suc k) ≡ some t
      → shift_cached k e.messages ≡ faults
      → shift_down (suc rounds) k e ≡ faults
  unfolding shift_down
  next_faults rounds k e b n t pb pn pt pc =
      bind-done _ (read-done e.message (suc k) b pb)
      ∙ bind-done _ (read-done e.message_namespace (suc k) n pn)
      ∙ bind-done _ (read-done e.message_type (suc k) t pt)
      ∙ bind-faults _ pc

  shift_cached-faults :
      (k : ℕ) (c : List (Option Message)) → suc k ≡ length c → shift_cached k (some c) ≡ faults
  unfolding shift_cached
  shift_cached-faults k c h =
      rw (leb_yes (suc k) (length c) (omega arith), get_elem?-none c (suc k) (omega arith)) refl

  shift_down-faults :
      (rounds k count : ℕ) (e : Envelope Message) (c : List (Option Message))
      → k + suc rounds ≡ count
      → IsEven count e
      → e.messages ≡ some c
      → suc k ≤ length c
      → length c < count
      → shift_down rounds k e ≡ faults
  unfolding IsSafe
  shift_down-faults zero k count e c h even p l u = elim (between k count (length c) h l u) [ ]
  shift_down-faults (suc rounds) k count e c h even p l u =
      let (b, pb) = get_elem?-some e.message (suc k) (omega (arith, even.messages)) in
      let (n, pn) = get_elem?-some e.message_namespace (suc k) (omega (arith, even.namespaces)) in
      let (t, pt) = get_elem?-some e.message_type (suc k) (omega (arith, even.types)) in
      elim (Bool-cases (suc k == length c)) [
        | inl f ↦
            next_faults rounds k e b n t pb pn pt
              (ap (shift_cached k) p ∙ shift_cached-faults k c (ground arith))
        | inr f ↦
            (let (m, pm) = get_elem?-some c (suc k) (ground arith) in
              next_round rounds k e b n t (some (set c k m)) pb pn pt
                (ap (shift_cached k) p ∙ shift_cached-moves k c m l pm)
              ∙ shift_down-faults rounds (suc k) count
                  (record e {
                    message = set e.message k b;
                    message_namespace = set e.message_namespace k n;
                    message_type = set e.message_type k t;
                    messages = some (set c k m);
                  })
                  (set c k m) (omega arith)
                  (record {
                    messages = length-set e.message k b ∙ even.messages;
                    namespaces = length-set e.message_namespace k n ∙ even.namespaces;
                    types = length-set e.message_type k t ∙ even.types;
                  })
                  refl (ground (arith, length-set c k m)) (omega (arith, length-set c k m)))
      ]

  -- With a cache that goes beyond the index and has fewer entries than there are messages,
  -- `RemoveMessage` reads behind the end of the cache.
  pub remove_message-faults :
      (index : ℕ) (e : Envelope Message) (c : List (Option Message))
      → IsEven (length e.message) e
      → e.messages ≡ some c
      → index < length c
      → length c < length e.message
      → remove_message index e ≡ faults
  unfolding remove_message
  remove_message-faults index e c even p l u =
      rw (ltb_no (length e.message) (index + 1) (omega arith)) (
        bind-faults _ (
          shift_down-faults (length e.message - 1 - index) index (length e.message) e c
            (omega arith) even p (omega arith) u))
