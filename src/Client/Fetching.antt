-- ===== src/Client/Fetching.antt =====
-- src/zippylog/client.cpp: `GetStream` and `Mirror`, over the synchronous requests, which are in
-- `Client/Synchronous`. The callback of the caller returns.
use zippylog.Prelude.{
  ℕ, zero, suc, ◌==◌, Bool, true, false, not, Option, none, some, List, [], ◌∷◌, Text, leb,
  if◌then◌else◌, Outcome, done, throws, faults, ◌++◌, map,
}
use zippylog.Store.Path.{stream_path}
use zippylog.Store.Contents.{StoreInfo, for_each}
use zippylog.Client.Messages.{StreamSegment, find, assign}

-- `GetStreamInfo`, as far as the length, `GetStreamSegment` and `GetStoreInfo`, each with a timeout of -1:
-- none where they give false, `throws` where an exception comes out of them, and `faults` where they
-- never come back or an assertion fails.
pub record Requests (W : Type 0) : Type 0 where
  pub stream_length : Text → W → Outcome (Option ℕ) × W
  pub stream_segment : Text → ℕ → W → Outcome (Option StreamSegment) × W
  pub store_info : W → Outcome (Option StoreInfo) × W

-- `outcome` is `faults` where the rounds are over or a request is; `told` are the calls of the callback.
pub record Fetch (W : Type 0) : Type 0 where
  pub outcome : Outcome Bool
  pub offset : ℕ
  pub told : List (ℕ × StreamSegment)
  pub world : W

abbrev pub stopped : {W : Type 0} → Outcome Bool → ℕ → W → Fetch W
stopped outcome offset w = record { outcome = outcome; offset = offset; told = []; world = w }

abbrev pub with_told : {W : Type 0} → ℕ → StreamSegment → Fetch W → Fetch W
with_told start_offset segment f = record f { told = (start_offset, segment) ∷ f.told }

-- The state, its end offset, is only changed where the result is true.
abbrev pub keep_state : {W : Type 0} → ℕ → Outcome Bool → Fetch W → Fetch W
keep_state state_offset (done true) f = f
keep_state state_offset (done false) f = record f { offset = state_offset }
keep_state state_offset (throws e) f = record f { offset = state_offset }
keep_state state_offset faults f = record f { offset = state_offset }

abbrev pub with_state : {W : Type 0} → ℕ → Fetch W → Fetch W
with_state state_offset f = keep_state state_offset f.outcome f

module _ {W : Type 0} (requests : Requests W) where
  -- What a round makes of the segment, with the rounds that follow it.
  abbrev pub fetch_segment :
      ℕ → ℕ → (ℕ → W → Fetch W) → Outcome (Option StreamSegment) × W → Fetch W
  fetch_segment start_offset end_offset more (throws e, w) = stopped (throws e) start_offset w
  fetch_segment start_offset end_offset more (faults, w) = stopped faults start_offset w
  fetch_segment start_offset end_offset more (done none, w) = stopped (done false) start_offset w
  fetch_segment start_offset end_offset more (done (some segment), w) =
      if segment.bytes_sent == 0
      then stopped (done true) start_offset w
      else with_told start_offset segment (
          if leb end_offset segment.end_offset
          then stopped (done true) segment.end_offset w
          else more segment.end_offset w)

  -- The loop, in at most so many rounds.
  unfoldable pub fetch : Text → ℕ → ℕ → ℕ → W → Fetch W
  fetch path end_offset zero start_offset w = stopped faults start_offset w
  fetch path end_offset (suc fuel) start_offset w =
      fetch_segment start_offset end_offset (fetch path end_offset fuel)
        (requests.stream_segment path start_offset w)

  abbrev pub fetch_to : ℕ → Text → ℕ → ℕ → W → Fetch W
  fetch_to fuel path state_offset end_offset w =
      if leb end_offset state_offset
      then stopped (done true) state_offset w
      else fetch path end_offset fuel state_offset w

  abbrev pub fetch_length : ℕ → Text → ℕ → Outcome (Option ℕ) × W → Fetch W
  fetch_length fuel path state_offset (throws e, w) = stopped (throws e) state_offset w
  fetch_length fuel path state_offset (faults, w) = stopped faults state_offset w
  fetch_length fuel path state_offset (done none, w) = stopped (done false) state_offset w
  fetch_length fuel path state_offset (done (some n), w) = fetch_to fuel path state_offset n w

  -- `GetStream`, with an end offset of 0 for the length of the stream.
  unfoldable pub get_stream : ℕ → Text → ℕ → Bool → ℕ → W → Fetch W
  unfolding fetch
  get_stream fuel path state_offset have_callback end_offset w =
      if not have_callback
      then stopped (throws "callback parameter not defined") state_offset w
      else if end_offset == 0
      then with_state state_offset
          (fetch_length fuel path state_offset (requests.stream_length path w))
      else with_state state_offset (fetch_to fuel path state_offset end_offset w)

-- `StoreInfo` as the streams that the loops of `Mirror` come to, each with its length, 0 where it has
-- none.
abbrev length_of : Option ℕ → ℕ
length_of none = 0
length_of (some n) = n

unfoldable pub streams_of : StoreInfo → List (Text × ℕ)
unfolding stream_path
streams_of info = for_each info.buckets (λ b.
    for_each b.stream_sets
      (λ s. map (λ t. (stream_path b.path s.path t.path, length_of t.length)) s.streams))

-- The states of the streams by path, and the calls of the callback, each with the path.
pub record Mirror (W : Type 0) : Type 0 where
  pub outcome : Outcome Bool
  pub states : List (Text × ℕ)
  pub told : List (Text × ℕ × StreamSegment)
  pub world : W

abbrev or_start : Option ℕ → ℕ
or_start none = 0
or_start (some n) = n

module _ {W : Type 0} (requests : Requests W) where
  abbrev mirrored : Text → Mirror W → Fetch W → Mirror W
  mirrored path m f = record {
    outcome = f.outcome;
    states = assign path f.offset m.states;
    told = m.told ++ map (λ c. (path, c.0, c.1)) f.told;
    world = f.world;
  }

  -- `GetStream` gives false or throws: the loops end with that.
  abbrev mirror_next : (Mirror W → Mirror W) → Outcome Bool → Mirror W → Mirror W
  mirror_next more (done true) m = more m
  mirror_next more (done false) m = m
  mirror_next more (throws e) m = m
  mirror_next more faults m = m

  -- The loops, over the streams in order; `fuel` bounds the segments of each.
  unfoldable pub mirror_streams : ℕ → List (Text × ℕ) → Mirror W → Mirror W
  unfolding get_stream find assign
  mirror_streams fuel [] m = record m { outcome = done true }
  mirror_streams fuel ((path, n) ∷ streams) m =
      let f = get_stream requests fuel path (or_start (find path m.states)) true n m.world in
      mirror_next (mirror_streams fuel streams) f.outcome (mirrored path m f)

  abbrev mirror_info : ℕ → List (Text × ℕ) → Outcome (Option StoreInfo) × W → Mirror W
  mirror_info fuel states (throws e, w) = record {
    outcome = throws e;
    states = states;
    told = [];
    world = w;
  }
  mirror_info fuel states (faults, w) = record {
    outcome = faults;
    states = states;
    told = [];
    world = w;
  }
  mirror_info fuel states (done none, w) = record {
    outcome = done false;
    states = states;
    told = [];
    world = w;
  }
  mirror_info fuel states (done (some info), w) =
      mirror_streams fuel (streams_of info)
        (record { outcome = done true; states = states; told = []; world = w })

  unfoldable pub mirror : ℕ → Bool → List (Text × ℕ) → W → Mirror W
  unfolding mirror_streams streams_of
  mirror fuel have_callback states w =
      if not have_callback
      then record {
        outcome = throws "callback parameter not defined";
        states = states;
        told = [];
        world = w;
      }
      else mirror_info fuel states (requests.store_info w)
