-- ===== src/Stream/Queue.antt =====
-- The stream as a first-in first-out queue of the bytes that it holds.
use drupe.Base.{
  Bool-cases, length, get_or, set, tabulate, get_or-set_self, get_or-set_ne, ℤ, rounds, pos, negsuc,
  ℕ, zero, suc, ◌+◌, ◌-◌, ◌%◌, ◌≤◌, ◌<◌, min, ◌≡◌, refl, sym, ap, ap₂, subst, ◌∙◌, ◌≢◌, ◌⊎◌, inl,
  inr, true, false, List, [], ◌∷◌, ◌++◌, arith,
}
use native.Mathlib.Numerals.{add-one}
use native.Mathlib.Decide.{dec_lt}
use mathlib.Core.List.{append-nil, append_assoc}
use drupe.Stream.{
  Stream, newline, stream_buf_size, clamp, put, write_from, stream_write, pull, stops, read_from,
  stream_read,
}
use drupe.Stream.Inv.{IsValid, clamp-le, put-IsValid, not-stops}

-- the `n` bytes of the ring from index `h` on
abbrev pub window : List ℕ → ℕ → ℕ → List ℕ
window bytes h zero = []
window bytes h (suc n) = get_or bytes h 0 ∷ window bytes ((h + 1) % stream_buf_size) n

abbrev pub contents : Stream → List ℕ
contents s = window s.bytes s.tail s.count

pub length-window : (bytes : List ℕ) (h n : ℕ) → length (window bytes h n) ≡ n
length-window bytes h zero = refl
length-window bytes h (suc n) = ap suc (length-window bytes ((h + 1) % stream_buf_size) n)

window_of_pos :
    (bytes : List ℕ) (h n : ℕ)
    → 0 < n
    → window bytes h n ≡ get_or bytes h 0 ∷ window bytes ((h + 1) % stream_buf_size) (n - 1)
window_of_pos bytes h zero p = absurd (omega arith)
window_of_pos bytes h (suc n) p =
    let e : n ≡ suc n - 1 = omega arith in
    ap (λ k. get_or bytes h 0 ∷ window bytes ((h + 1) % stream_buf_size) k) e

-- A byte stored behind a window joins it, and the window is otherwise as before.
window-set :
    (bytes : List ℕ) (c n h i : ℕ)
    → length bytes ≡ stream_buf_size
    → h < stream_buf_size
    → n < stream_buf_size
    → i ≡ (h + n) % stream_buf_size
    → window (set bytes i c) h (suc n) ≡ window bytes h n ++ (c ∷ [])
window-set bytes c zero h i sized hh hn e =
    let here : i ≡ h = omega arith in
    rw here (ap (λ b. b ∷ []) (get_or-set_self bytes h c 0 (omega arith)))
window-set bytes c (suc n) h i sized hh hn e =
    ap₂ ◌∷◌ (get_or-set_ne bytes i h c 0 (λ same. omega arith)) (
      window-set bytes c n ((h + 1) % stream_buf_size) i sized (omega arith) (omega arith)
        (omega arith))

pub contents-put :
    {s : Stream} (c : ℕ)
    → IsValid s
    → s.count < stream_buf_size
    → contents (put s c) ≡ contents s ++ (c ∷ [])
unfolding put
contents-put {s} c v room =
    rw add-one (window-set s.bytes c s.count s.tail s.head v.sized v.tail_in room (sym v.linked))

pub contents-write_from :
    (left written : ℕ) {s : Stream} (buf : ℕ → ℕ)
    → IsValid s
    → s.count + left ≤ stream_buf_size
    → contents (write_from left written s buf) ≡ contents s ++ tabulate left written buf
unfolding write_from
contents-write_from zero written {s} buf v room = sym (append-nil (contents s))
contents-write_from (suc left) written {s} buf v room =
    contents-write_from left (written + 1) buf (put-IsValid (buf written) v (omega arith))
      (unfold put in omega arith)
    ∙ ap (λ q. q ++ tabulate left (written + 1) buf) (contents-put (buf written) v (omega arith))
    ∙ append_assoc (contents s) (buf written ∷ []) (tabulate left (written + 1) buf)

clamp-eq-min : (len : ℤ) (room : ℕ) → clamp len room ≡ min (rounds len) room
unfolding clamp
clamp-eq-min (pos n) room = ground arith
clamp-eq-min (negsuc n) room = omega arith

-- On a valid stream `stream_write` takes as many bytes as are asked for and fit, none for a negative
-- length, and appends exactly those, in order.
pub stream_write_lem :
    {s : Stream} (buf : ℕ → ℕ) (len : ℤ)
    → IsValid s
    → let (s', n) = stream_write s buf len in
      (n ≡ min (rounds len) (stream_buf_size - s.count))
      × (contents s' ≡ contents s ++ tabulate n 0 buf)
unfolding stream_write
stream_write_lem {s} buf len v =
    let room = stream_buf_size - s.count in
    (
      clamp-eq-min len room,
      contents-write_from (clamp len room) 0 buf v (omega (arith, clamp-le len room)),
    )

contents-pull :
    (s : Stream) → 0 < s.count → contents s ≡ get_or s.bytes s.tail 0 ∷ contents (pull s)
unfolding pull
contents-pull s p = window_of_pos s.bytes s.tail s.count p

-- What one run of the read loop gives: a prefix of the queue, which ends by the length, by the end
-- of the queue or by a newline in the cell with the number of bytes read so far.
pub record HasRead (left read : ℕ) (s : Stream) (out : Stream × List ℕ) : Type 0 where
  pub prefix : contents s ≡ out.1 ++ contents out.0
  pub storage : out.0.bytes ≡ s.bytes
  pub same_head : out.0.head ≡ s.head
  pub amount : length out.1 + out.0.count ≡ s.count
  pub limit : length out.1 ≤ left
  pub reason :
      (length out.1 ≡ left) ⊎ (out.0.count ≡ 0) ⊎ (get_or s.bytes (read + length out.1) 0 ≡ newline)
  pub passed : (i : ℕ) → i < length out.1 → get_or s.bytes (read + i) 0 ≢ newline

stop_reason :
    (s : Stream) (read : ℕ)
    → stops s read ≡ true
    → (s.count ≡ 0) ⊎ (get_or s.bytes read 0 ≡ newline)
unfolding stops
stop_reason s read h = ground arith

go_reason : (s : Stream) (read : ℕ) → stops s read ≡ false → get_or s.bytes read 0 ≢ newline
unfolding stops
go_reason s read h = ground arith

HasRead-stop : (left read : ℕ) (s : Stream) → stops s read ≡ true → HasRead left read s (s, [])
HasRead-stop left read s h = record {
  prefix = refl;
  storage = refl;
  same_head = refl;
  amount = omega arith;
  limit = omega arith;
  reason = elim (stop_reason s read h) [
    | inl empty ↦ inr (inl empty)
    | inr nl ↦ inr (inr (let e : read + 0 ≡ read = omega arith in rw e nl))
  ];
  passed = λ i p. absurd (omega arith);
}

HasRead-go :
    (left read : ℕ) (s : Stream) (out : Stream × List ℕ)
    → stops s read ≡ false
    → HasRead left (read + 1) (pull s) out
    → HasRead (suc left) read s (out.0, get_or s.bytes s.tail 0 ∷ out.1)
unfolding pull
HasRead-go left read s out h r = record {
  prefix = contents-pull s (not-stops s read h) ∙ ap (◌∷◌ (get_or s.bytes s.tail 0)) r.prefix;
  storage = r.storage;
  same_head = r.same_head;
  amount = omega (arith, r.amount, not-stops s read h);
  limit = omega (arith, r.limit);
  reason = elim r.reason [
    | inl full ↦ inl (omega arith)
    | inr (inl empty) ↦ inr (inl empty)
    | inr (inr nl) ↦ inr (inr (subst (λ k. get_or s.bytes k 0 ≡ newline) (omega arith) nl))
  ];
  passed = elim [
    | zero ↦ λ p e. go_reason s read h (subst (λ k. get_or s.bytes k 0 ≡ newline) (omega arith) e)
    | suc i ↦
        λ p e. r.passed i (omega arith) (subst (λ k. get_or s.bytes k 0 ≡ newline) (omega arith) e)
  ];
}

pub read_from-HasRead : (left read : ℕ) (s : Stream) → HasRead left read s (read_from left read s)
unfolding read_from
read_from-HasRead zero read s = record {
  prefix = refl;
  storage = refl;
  same_head = refl;
  amount = omega arith;
  limit = omega arith;
  reason = inl refl;
  passed = λ i p. absurd (omega arith);
}
read_from-HasRead (suc left) read s = elim (Bool-cases (stops s read)) [
  | inl stop ↦ rw stop (HasRead-stop (suc left) read s stop)
  | inr go ↦ rw go (HasRead-go left read s _ go (read_from-HasRead left (read + 1) (pull s)))
]

-- Reading loses, repeats and reorders nothing: what is read, followed by what stays, is what was
-- held. It ends exactly where the length is reached, the queue is empty, or the cell whose index is
-- the number of bytes read holds a newline, and at no earlier cell with a newline.
pub stream_read-HasRead : (s : Stream) (len : ℤ) → HasRead (rounds len) 0 s (stream_read s len)
unfolding stream_read
stream_read-HasRead s len = read_from-HasRead (rounds len) 0 s

append-length-zero : {xs ys : List ℕ} (zs : List ℕ) → xs ≡ ys ++ zs → length zs ≡ 0 → ys ≡ xs
append-length-zero {ys = ys} [] e h = sym (e ∙ append-nil ys)
append-length-zero (z ∷ zs) e h = absurd (omega arith)

pub count-write_from :
    (left written : ℕ) (s : Stream) (buf : ℕ → ℕ)
    → (write_from left written s buf).count ≡ s.count + left
unfolding write_from put
count-write_from zero written s buf = omega arith
count-write_from (suc left) written s buf =
    omega (arith, count-write_from left (written + 1) (put s (buf written)) buf)

pub count-stream_write :
    (s : Stream) (buf : ℕ → ℕ) (len : ℤ)
    → (stream_write s buf len).0.count ≡ s.count + (stream_write s buf len).1
unfolding stream_write
count-stream_write s buf len = count-write_from (clamp len (stream_buf_size - s.count)) 0 s buf

-- A read of at least as many bytes as a stream holds takes them all, in order, if no cell below their
-- number holds a newline.
pub stream_read-drains :
    (s : Stream) (len : ℤ)
    → s.count ≤ rounds len
    → ((i : ℕ) → i < s.count → get_or s.bytes i 0 ≢ newline)
    → let (s', out) = stream_read s len in (out ≡ contents s) × (s'.count ≡ 0)
stream_read-drains s len enough clear = (
  append-length-zero (contents s') r.prefix (length-window s'.bytes s'.tail s'.count ∙ empty),
  empty,
)
  where
    s' : Stream
    s' = (stream_read s len).0

    n : ℕ
    n = length (stream_read s len).1

    r : HasRead (rounds len) 0 s (stream_read s len)
    r = stream_read-HasRead s len

    at_newline : get_or s.bytes (0 + n) 0 ≡ newline → s'.count ≡ 0
    at_newline nl = elim (dec_lt n s.count) [
      | yes p ↦ absurd (clear n p (subst (λ k. get_or s.bytes k 0 ≡ newline) (omega arith) nl))
      | no p ↦ omega (arith, r.amount)
    ]

    empty : s'.count ≡ 0
    empty = elim r.reason [
      | inl full ↦ omega (arith, r.amount)
      | inr (inl done) ↦ done
      | inr (inr nl) ↦ at_newline nl
    ]

-- What is written to a valid and empty stream comes back whole and in order, if no cell below the number of
-- bytes written then holds a newline.
pub read-write :
    {s : Stream} (buf : ℕ → ℕ) (len : ℤ)
    → IsValid s
    → s.count ≡ 0
    → ((i : ℕ)
        → i < (stream_write s buf len).1
        → get_or (stream_write s buf len).0.bytes i 0 ≢ newline)
    → (stream_read (stream_write s buf len).0 len).1
      ≡ tabulate (min (rounds len) stream_buf_size) 0 buf
read-write {s} buf len v empty clear =
    (stream_read-drains s' len (omega (arith, count-stream_write s buf len, w.0))
      (λ i p. clear i (omega (arith, count-stream_write s buf len)))).0
    ∙ w.1
    ∙ ap₂ (λ q k. q ++ tabulate k 0 buf) nothing_before (omega (arith, w.0))
  where
    s' : Stream
    s' = (stream_write s buf len).0

    w :
        ((stream_write s buf len).1 ≡ min (rounds len) (stream_buf_size - s.count))
        × (contents s' ≡ contents s ++ tabulate (stream_write s buf len).1 0 buf)
    w = stream_write_lem buf len v

    nothing_before : contents s ≡ []
    nothing_before = ap (window s.bytes s.tail) empty
