-- ===== src/Client/Fetched.antt =====
-- src/zippylog/client.cpp, `GetStream`: what it has fetched.
use Prim.Native.String.{String}
use zippylog.Prelude.{
  ℕ, zero, suc, ◌+◌, ◌≤◌, ◌<◌, ◌==◌, ==_iff, ◌≡◌, ◌≢◌, refl, inl, inr, Bool, true, false, ◌⊎◌,
  Option, none, some, List, [], ◌∷◌, Text, leb, Bool-cases, Outcome, done, throws, faults, arith,
}
use zippylog.Client.Messages.{StreamSegment}
use zippylog.Client.Fetching.{
  Requests, Fetch, stopped, with_told, fetch_segment, fetch, fetch_to, keep_state, with_state,
  get_stream,
}

-- The segments follow each other from an offset to another.
abbrev pub IsChain : ℕ → List (ℕ × StreamSegment) → ℕ → Type 0
IsChain a [] b = a ≡ b
IsChain a ((start_offset, segment) ∷ more) b =
    (start_offset ≡ a) × (segment.bytes_sent ≢ 0) × IsChain segment.end_offset more b

-- A segment that holds something ends behind its start.
unfoldable pub Advances : {W : Type 0} → Requests W → Type 0
Advances {W} requests =
    (path : Text) (offset : ℕ) (w : W) (segment : StreamSegment)
    → (requests.stream_segment path offset w).0 ≡ done (some segment)
    → segment.bytes_sent ≢ 0
    → offset < segment.end_offset

module _ {W : Type 0} (requests : Requests W) where
  -- The request for a segment from an offset on has not come back, and left this.
  pub record IsStuck (path : Text) (offset : ℕ) (after : W) : Type 0 where
    pub world : W
    pub stuck : requests.stream_segment path offset world ≡ (faults, after)

  -- What has been fetched is a chain to where the loop stands, which ends unless a request does not.
  pub data IsFetched (path : Text) (start_offset : ℕ) (f : Fetch W) : Type 0 where
    fetched :
        (f.outcome ≢ faults) ⊎ IsStuck path f.offset f.world
        → IsChain start_offset f.told f.offset
        → IsFetched path start_offset f

  told-IsFetched :
      (path : Text) (start_offset : ℕ) (segment : StreamSegment) (f : Fetch W)
      → segment.bytes_sent ≢ 0
      → IsFetched path segment.end_offset f
      → IsFetched path start_offset (with_told start_offset segment f)
  told-IsFetched path start_offset segment f b (fetched o c) = fetched o (refl, b, c)

  zero_bytes : (n : ℕ) → (n == 0) ≡ false → n ≢ 0
  zero_bytes n h k = ground arith

  below : (a b : ℕ) → leb a b ≡ false → b < a
  below a b h = ground arith

  ended : (ok : Bool) → done ok ≢ faults
  ended ok e = cc

  segment-IsFetched :
      (path : Text) (start_offset end_offset : ℕ) (more : ℕ → W → Fetch W) (w : W)
      (r : Outcome (Option StreamSegment) × W)
      → requests.stream_segment path start_offset w ≡ r
      → ((segment : StreamSegment)
          → r.0 ≡ done (some segment)
          → segment.bytes_sent ≢ 0
          → start_offset < segment.end_offset)
      → ((o : ℕ) (w : W) → start_offset < o → o < end_offset → IsFetched path o (more o w))
      → IsFetched path start_offset (fetch_segment requests start_offset end_offset more r)
  segment-IsFetched path start_offset end_offset more v (throws x, w) s a m =
      fetched (inl (λ e. cc)) refl
  segment-IsFetched path start_offset end_offset more v (faults, w) s a m =
      fetched (inr (record { world = v; stuck = s })) refl
  segment-IsFetched path start_offset end_offset more v (done none, w) s a m =
      fetched (inl (ended false)) refl
  segment-IsFetched path start_offset end_offset more v (done (some segment), w) s a m =
      elim (Bool-cases (segment.bytes_sent == 0)) [
        | inl z ↦ rw z (fetched (inl (ended true)) refl)
        | inr n ↦
            (let bytes = zero_bytes segment.bytes_sent n in
              elim (Bool-cases (leb end_offset segment.end_offset)) [
                | inl e ↦
                    rw (n, e)
                      (told-IsFetched path start_offset segment
                        (stopped (done true) segment.end_offset w) bytes
                        (fetched (inl (ended true)) refl))
                | inr e ↦
                    rw (n, e)
                      (told-IsFetched path start_offset segment (more segment.end_offset w) bytes (
                        m segment.end_offset w (a segment refl bytes)
                          (below end_offset segment.end_offset e)))
              ])
      ]

  pub fetch-IsFetched :
      (path : Text) (end_offset fuel start_offset : ℕ) (w : W)
      → Advances requests
      → start_offset < end_offset
      → end_offset ≤ start_offset + fuel
      → IsFetched path start_offset (fetch requests path end_offset fuel start_offset w)
  unfolding fetch Advances
  fetch-IsFetched path end_offset zero start_offset w a s e = absurd (omega arith)
  fetch-IsFetched path end_offset (suc fuel) start_offset w a s e =
      segment-IsFetched path start_offset end_offset (fetch requests path end_offset fuel) w
        (requests.stream_segment path start_offset w) refl (a path start_offset w)
        (λ o v h k. fetch-IsFetched path end_offset fuel o v a k (omega arith))

  -- `GetStream` has fetched up to the offset of the new state; or it has failed, or an exception came out
  -- of it, after some segments; or a request has not come back.
  pub data IsGot (path : Text) (state_offset : ℕ) (f : Fetch W) : Type 0 where
    complete :
        f.outcome ≡ done true → IsChain state_offset f.told f.offset → IsGot path state_offset f
    failed :
        (stop : ℕ)
        → f.outcome ≡ done false
        → f.offset ≡ state_offset
        → IsChain state_offset f.told stop
        → IsGot path state_offset f
    threw :
        (stop : ℕ) (e : String)
        → f.outcome ≡ throws e
        → f.offset ≡ state_offset
        → IsChain state_offset f.told stop
        → IsGot path state_offset f
    unanswered :
        (stop : ℕ)
        → IsStuck path stop f.world
        → f.outcome ≡ faults
        → f.offset ≡ state_offset
        → IsChain state_offset f.told stop
        → IsGot path state_offset f

  kept-IsGot :
      (path : Text) (state_offset offset : ℕ) (o : Outcome Bool) (told : List (ℕ × StreamSegment))
      (w : W)
      → (o ≢ faults) ⊎ IsStuck path offset w
      → IsChain state_offset told offset
      → IsGot path state_offset (
          keep_state state_offset o
            (record { outcome = o; offset = offset; told = told; world = w }))
  kept-IsGot path state_offset offset (done true) told w n c = complete refl c
  kept-IsGot path state_offset offset (done false) told w n c = failed offset refl refl c
  kept-IsGot path state_offset offset (throws e) told w n c = threw offset e refl refl c
  kept-IsGot path state_offset offset faults told w (inl n) c = absurd (n refl)
  kept-IsGot path state_offset offset faults told w (inr k) c = unanswered offset k refl refl c

  keep-IsGot :
      (path : Text) (state_offset : ℕ) (f : Fetch W)
      → IsFetched path state_offset f
      → IsGot path state_offset (with_state state_offset f)
  keep-IsGot path state_offset f (fetched n c) =
      kept-IsGot path state_offset f.offset f.outcome f.told f.world n c

  to-IsFetched :
      (path : Text) (state_offset end_offset fuel : ℕ) (w : W)
      → Advances requests
      → end_offset ≤ state_offset + fuel
      → IsFetched path state_offset (fetch_to requests fuel path state_offset end_offset w)
  to-IsFetched path state_offset end_offset fuel w a e =
      elim (Bool-cases (leb end_offset state_offset)) [
        | inl h ↦ rw h (fetched (inl (ended true)) refl)
        | inr h ↦ rw h (
            fetch-IsFetched path end_offset fuel state_offset w a (below end_offset state_offset h)
              e)
      ]

  -- Fetching a stream up to an offset that is not 0, where a segment that holds something ends behind its
  -- start: in as many rounds as there are offsets to go it ends, unless a request for a segment of the
  -- stream does not come back. The callback gets segments that follow each other without a gap from the
  -- offset of the state on, none of them empty; with success the state is left at the end of the last, and
  -- else it is left as it was, where a request fails, or throws, or does not come back.
  pub get_stream-IsGot :
      (path : Text) (state_offset end_offset fuel : ℕ) (w : W)
      → Advances requests
      → end_offset ≢ 0
      → end_offset ≤ state_offset + fuel
      → IsGot path state_offset (get_stream requests fuel path state_offset true end_offset w)
  unfolding get_stream
  get_stream-IsGot path state_offset end_offset fuel w a n e = elim (Bool-cases (end_offset == 0)) [
    | inl z ↦ absurd (n ((==_iff end_offset 0).0 z))
    | inr z ↦ rw z (
        keep-IsGot path state_offset (fetch_to requests fuel path state_offset end_offset w)
          (to-IsFetched path state_offset end_offset fuel w a e))
  ]
