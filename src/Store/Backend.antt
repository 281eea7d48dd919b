-- ===== src/Store/Backend.antt =====
-- src/zippylog/store.hpp, the pure virtual functions of `Store` that read: the interface between
-- the store and its kinds, here as what they answer at one moment. A listing that fails leaves the
-- vector that it was given empty, and every caller ignores the result, so it is the empty list.
use zippylog.Prelude.{ℕ, Bool, Option, List, Text}

pub record Backend : Type 0 where
  pub bucket_names : List Text
  pub stream_set_names : Text → List Text
  pub stream_names : Text → Text → List Text
  pub stream_length : Text → Option ℕ
  pub bucket_exists : Text → Bool
  pub stream_set_exists : Text → Text → Bool
  pub stream_exists : Text → Text → Text → Bool
