-- ===== src/Sockets/Delivery.antt =====
-- The loops `write` and `read` of a stream: what goes out is the buffer, what comes in is what went
-- out, however the system splits it.
use cachecoherence.Base.{
  ℕ, zero, suc, ◌+◌, ◌-◌, ◌%◌, ◌^◌, ◌<◌, ◌≤◌, ◌≡◌, refl, ap, ◌∙◌, sym, List, [], ◌∷◌, ◌++◌, length,
  take, drop, Run, ok, stop, blocked, threw, arith, map, drop-drop, append_assoc, append-nil,
  length-append, replicate, All, Returns,
}
use cachecoherence.Sockets.Stream.{
  Sent, takes, send_fails, Received, gives, recv_fails, write, read, prepend,
}

-- The bytes taken, and those of chunks in a row.
abbrev pub sum : List ℕ → ℕ
sum [] = 0
sum (n ∷ ns) = n + sum ns

abbrev pub concat : List (List ℕ) → List ℕ
concat [] = []
concat (c ∷ cs) = c ++ concat cs

abbrev pub IsPositive : ℕ → Type 0
IsPositive n = 0 < n

abbrev pub IsFull : List ℕ → Type 0
IsFull c = 0 < length c

prepend-nil : {Answer : Type 0} (r : Run (List ℕ × List Answer)) → prepend [] r ≡ r
prepend-nil (ok (more, left)) = refl
prepend-nil (stop s) = refl

prepend-append :
    {Answer : Type 0} (xs ys : List ℕ) (r : Run (List ℕ × List Answer))
    → prepend xs (prepend ys r) ≡ prepend (xs ++ ys) r
prepend-append xs ys (ok (more, left)) = ap (λ l. ok (l, left)) (sym (append_assoc xs ys more))
prepend-append xs ys (stop s) = refl

take-nil : (n : ℕ) → take {A = ℕ} n [] ≡ []
take-nil zero = refl
take-nil (suc n) = refl

take-plus : (n m : ℕ) (xs : List ℕ) → take n xs ++ take m (drop n xs) ≡ take (n + m) xs
take-plus zero m xs = ground arith
take-plus (suc n) m [] = ground (arith, take-nil m, take-nil (suc n + m))
take-plus (suc n) m (x ∷ xs) =
    let one_more : suc (n + m) ≡ suc n + m = omega arith in
    ap (λ l. x ∷ l) (take-plus n m xs) ∙ ap (λ k. take k (x ∷ xs)) one_more

take-all : (xs : List ℕ) → take (length xs) xs ≡ xs
take-all [] = refl
take-all (x ∷ xs) = ap (λ l. x ∷ l) (take-all xs)

-- One round of `write`.
write-round :
    (buffer : List ℕ) (current size res : ℕ) (answers : List Sent)
    → current + size < 2 ^ 64
    → 0 < res
    → res ≤ size
    → write buffer current size (takes res ∷ answers)
      ≡ prepend (take res (drop current buffer)) (write buffer (current + res) (size - res) answers)
unfolding write
write-round buffer current size res answers small positive within =
    let on : (current + res) % 2 ^ 64 ≡ current + res = omega arith in
    let left : (size + 2 ^ 64 - res) % 2 ^ 64 ≡ size - res = omega arith in ground (arith, on, left)

write-rounds :
    (buffer : List ℕ) (current size : ℕ) (sizes : List ℕ) (more : List Sent)
    → current + size < 2 ^ 64
    → All IsPositive sizes
    → sum sizes ≤ size
    → write buffer current size (map takes sizes ++ more)
      ≡ prepend
          (take (sum sizes) (drop current buffer))
          (write buffer (current + sum sizes) (size - sum sizes) more)
write-rounds buffer current size [] more small positive within =
    ground (arith, prepend-nil (write buffer (current + 0) (size - 0) more))
write-rounds buffer current size (n ∷ sizes) more small (p, positive) within =
    let first = take n (drop current buffer) in
    let second = take (sum sizes) (drop (current + n) buffer) in
    let rest = write buffer (current + n + sum sizes) (size - n - sum sizes) more in
    write-round buffer current size n (map takes sizes ++ more) small p (omega arith)
    ∙ ap (prepend first) (
        write-rounds buffer (current + n) (size - n) sizes more (omega arith) positive
          (omega arith))
    ∙ prepend-append first second rest
    ∙ ground (arith, drop-drop current n buffer, take-plus n (sum sizes) (drop current buffer))

write-done :
    (buffer : List ℕ) (current : ℕ) (answers : List Sent)
    → write buffer current 0 answers ≡ ok ([], answers)
unfolding write
write-done buffer current [] = refl
write-done buffer current (send_fails ∷ answers) = refl
write-done buffer current (takes n ∷ answers) = refl

-- However the system splits it, `write` sends the buffer, whole and in order, and then stops.
pub write-sends :
    (buffer sizes : List ℕ) (more : List Sent)
    → length buffer < 2 ^ 64
    → All IsPositive sizes
    → sum sizes ≡ length buffer
    → write buffer 0 (length buffer) (map takes sizes ++ more) ≡ ok (buffer, more)
write-sends buffer sizes more small positive whole =
    write-rounds buffer 0 (length buffer) sizes more (omega arith) positive (omega arith)
    ∙ ground (arith, write-done buffer (0 + sum sizes) more, take-all buffer, append-nil buffer)

-- An error of the system in the middle ends `write` with an exception.
pub write-fails :
    (buffer sizes : List ℕ) (more : List Sent)
    → length buffer < 2 ^ 64
    → All IsPositive sizes
    → sum sizes < length buffer
    → write buffer 0 (length buffer) (map takes sizes ++ send_fails ∷ more) ≡ stop threw
unfolding write
write-fails buffer sizes more small positive part =
    write-rounds buffer 0 (length buffer) sizes (send_fails ∷ more) (omega arith) positive
      (omega arith)
    ∙ ground arith

read-done : (answers : List Received) → read 0 answers ≡ ok ([], answers)
unfolding read
read-done [] = refl
read-done (recv_fails ∷ answers) = refl
read-done (gives chunk ∷ answers) = refl

read-nothing :
    (size rounds : ℕ)
    → size < 2 ^ 64
    → 0 < size
    → read size (replicate rounds (gives [])) ≡ stop blocked
unfolding read
read-nothing size zero small missing = ground arith
read-nothing size (suc rounds) small missing =
    ground (arith, read-nothing size rounds small missing)

-- One round of `read`.
read-round :
    (size : ℕ) (chunk : List ℕ) (answers : List Received)
    → size < 2 ^ 64
    → 0 < size
    → length chunk ≤ size
    → read size (gives chunk ∷ answers) ≡ prepend chunk (read (size - length chunk) answers)
unfolding read
read-round size chunk answers small positive within =
    let left : (size + 2 ^ 64 - length chunk) % 2 ^ 64 ≡ size - length chunk = omega arith in
    ground (arith, left, read-done answers, append-nil chunk)

read-rounds :
    (size : ℕ) (chunks : List (List ℕ)) (more : List Received)
    → size < 2 ^ 64
    → All IsFull chunks
    → length (concat chunks) ≤ size
    → read size (map gives chunks ++ more)
      ≡ prepend (concat chunks) (read (size - length (concat chunks)) more)
read-rounds size [] more small full within = ground (arith, prepend-nil (read (size - 0) more))
read-rounds size (c ∷ chunks) more small (f, full) within =
    let all = length-append c (concat chunks) in
    let rest = read (size - length c - length (concat chunks)) more in
    read-round size c (map gives chunks ++ more) small (omega arith) (omega (arith, all))
    ∙ ap (prepend c)
        (read-rounds (size - length c) chunks more (omega arith) full (omega (arith, all)))
    ∙ prepend-append c (concat chunks) rest
    ∙ ground (arith, all)

pub read-chunks :
    (buffer : List ℕ) (chunks : List (List ℕ)) (received : List Received)
    → length buffer < 2 ^ 64
    → All IsFull chunks
    → concat chunks ≡ buffer
    → read (length buffer) (map gives chunks ++ received) ≡ ok (buffer, received)
read-chunks buffer chunks received small full same =
    read-rounds (length buffer) chunks received small full (omega (arith, ap length same))
    ∙ ground (arith, same, read-done received, append-nil buffer)

-- What `write` sends to the other end, `read` puts into its buffer, whole and in order, however the
-- system splits it on the one side and on the other.
pub read-write_stream :
    (buffer sizes : List ℕ) (chunks : List (List ℕ)) (sent : List Sent) (received : List Received)
    → length buffer < 2 ^ 64
    → All IsPositive sizes
    → sum sizes ≡ length buffer
    → All IsFull chunks
    → concat chunks ≡ buffer
    → Returns
        (write buffer 0 (length buffer) (map takes sizes ++ sent))
        λ r. (r.1 ≡ sent) × (read (length r.0) (map gives chunks ++ received) ≡ ok (r.0, received))
read-write_stream buffer sizes chunks sent received small positive whole full same = (
  (buffer, sent),
  write-sends buffer sizes sent small positive whole,
  (refl, read-chunks buffer chunks received small full same),
)

-- At the end of the stream `read` waits for ever for the bytes that are missing: however often
-- `recv` answers that there is no more, `read` calls it again.
pub read-eof :
    (size rounds : ℕ) (chunks : List (List ℕ))
    → size < 2 ^ 64
    → All IsFull chunks
    → length (concat chunks) < size
    → read size (map gives chunks ++ replicate rounds (gives [])) ≡ stop blocked
unfolding read
read-eof size rounds chunks small full missing =
    read-rounds size chunks (replicate rounds (gives [])) small full (omega arith)
    ∙ ap (prepend (concat chunks))
        (read-nothing (size - length (concat chunks)) rounds (omega arith) (omega arith))
