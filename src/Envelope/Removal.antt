-- ===== src/Envelope/Removal.antt =====
-- src/zippylog/envelope.cpp, `Envelope::RemoveMessage`: the loop takes one message out, where the cache
-- allows it.
use zippylog.Prelude.{
  ℕ, zero, suc, ◌+◌, ◌-◌, ◌<◌, ◌≡◌, refl, ◌∙◌, true, length, set, drop_last, arith, done,
}
use zippylog.Envelope.{Envelope, shift_down, clear_last, remove_message}
use zippylog.Envelope.Shifting.{
  get_elem?-some, length-set, without, without-last, without-set, remove_last-done, ltb_no,
  bind-done, shift_cached-IsSafe, IsSafe, next_round,
}

module _ {Message : Type 0} where
  -- What the loop makes of an envelope with `count` messages from the slot `k` on.
  record IsShifted (k count : ℕ) (e e' : Envelope Message) : Type 0 where
    message : drop_last e'.message ≡ without k e.message
    message_namespace : drop_last e'.message_namespace ≡ without k e.message_namespace
    message_type : drop_last e'.message_type ≡ without k e.message_type
    messages : length e'.message ≡ count
    namespaces : length e'.message_namespace ≡ count
    types : length e'.message_type ≡ count
    tag : e'.tag ≡ e.tag
    create_time : e'.create_time ≡ e.create_time

  -- The three lists have `count` elements.
  pub record IsEven (count : ℕ) (e : Envelope Message) : Type 0 where
    pub messages : length e.message ≡ count
    pub namespaces : length e.message_namespace ≡ count
    pub types : length e.message_type ≡ count

  shift_down-IsShifted :
      (rounds k count : ℕ) (e : Envelope Message)
      → k + suc rounds ≡ count
      → IsEven count e
      → IsSafe k count e.messages
      → (e' : Envelope Message) × (shift_down rounds k e ≡ done e') × IsShifted k count e e'
  unfolding shift_down
  shift_down-IsShifted zero k count e h even safe = (
    e,
    refl,
    record {
      message = without-last e.message k (omega (arith, even.messages));
      message_namespace = without-last e.message_namespace k (omega (arith, even.namespaces));
      message_type = without-last e.message_type k (omega (arith, even.types));
      messages = even.messages;
      namespaces = even.namespaces;
      types = even.types;
      tag = refl;
      create_time = refl;
    },
  )
  shift_down-IsShifted (suc rounds) k count e h even safe =
      let (b, pb) = get_elem?-some e.message (suc k) (omega (arith, even.messages)) in
      let (n, pn) = get_elem?-some e.message_namespace (suc k) (omega (arith, even.namespaces)) in
      let (t, pt) = get_elem?-some e.message_type (suc k) (omega (arith, even.types)) in
      let (c, pc, safe') = shift_cached-IsSafe k count e.messages safe (omega arith) in
      let next : Envelope Message = record e {
        message = set e.message k b;
        message_namespace = set e.message_namespace k n;
        message_type = set e.message_type k t;
        messages = c;
      } in
      let (e', pe, s) =
        shift_down-IsShifted rounds (suc k) count next (omega arith)
          (record {
            messages = length-set e.message k b ∙ even.messages;
            namespaces = length-set e.message_namespace k n ∙ even.namespaces;
            types = length-set e.message_type k t ∙ even.types;
          })
          safe' in
      (
        e',
        next_round rounds k e b n t c pb pn pt pc ∙ pe,
        record {
          message = s.message ∙ without-set e.message k b pb;
          message_namespace = s.message_namespace ∙ without-set e.message_namespace k n pn;
          message_type = s.message_type ∙ without-set e.message_type k t pt;
          messages = s.messages;
          namespaces = s.namespaces;
          types = s.types;
          tag = s.tag;
          create_time = s.create_time;
        },
      )

  -- The count of the rounds that `RemoveMessage` starts with.
  removed_eq :
      (index : ℕ) (e e' : Envelope Message)
      → index < length e.message
      → shift_down (length e.message - 1 - index) index e ≡ done e'
      → 0 < length e'.message
      → 0 < length e'.message_namespace
      → 0 < length e'.message_type
      → remove_message index e
        ≡ done (
          record e' {
            message = drop_last e'.message;
            message_namespace = drop_last e'.message_namespace;
            message_type = drop_last e'.message_type;
            messages = clear_last (length e.message) e'.messages;
          },
          true,
        )
  unfolding remove_message
  removed_eq index e e' h q m n t = rw (ltb_no (length e.message) (index + 1) (omega arith)) (
      bind-done _ q
      ∙ bind-done _ (remove_last-done e'.message m)
      ∙ bind-done _ (remove_last-done e'.message_namespace n)
      ∙ bind-done _ (remove_last-done e'.message_type t))

  -- `RemoveMessage` takes the message at the index, its namespace and its type out of an envelope that
  -- has as many of each, and leaves the others in their order, the tags and the time; provided that
  -- there is no cache, or it has an entry for each message, or it ends at the index or before.
  pub remove_message-removes :
      (index : ℕ) (e : Envelope Message)
      → index < length e.message
      → IsEven (length e.message) e
      → IsSafe index (length e.message) e.messages
      → (e' : Envelope Message) × (remove_message index e ≡ done (e', true))
        × (e'.message ≡ without index e.message)
        × (e'.message_namespace ≡ without index e.message_namespace)
        × (e'.message_type ≡ without index e.message_type)
        × (e'.tag ≡ e.tag)
        × (e'.create_time ≡ e.create_time)
  remove_message-removes index e h even safe =
      let (e', q, s) =
        shift_down-IsShifted (length e.message - 1 - index) index (length e.message) e (omega arith)
          even safe in
      (
        record e' {
          message = drop_last e'.message;
          message_namespace = drop_last e'.message_namespace;
          message_type = drop_last e'.message_type;
          messages = clear_last (length e.message) e'.messages;
        },
        removed_eq index e e' h q (omega (arith, s.messages)) (omega (arith, s.namespaces))
            (omega (arith, s.types)),
        s.message,
        s.message_namespace,
        s.message_type,
        s.tag,
        s.create_time,
      )
