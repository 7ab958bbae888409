-- ===== src/Sockets/Objects.antt =====
-- The templates `write` and `read` of util/socket/tcp.h and util/socket/domain.h, the same in both: an
-- object of a trivial type goes out as its bytes. Such a type is given by the sizes of its fields.
use cachecoherence.Base.{
  ℕ, ◌^◌, ◌<◌, ◌≡◌, refl, ap, sym, ◌∙◌, List, [], ◌++◌, length, Run, ok, ◌>>=◌, map, All, Returns,
  arith, append-nil,
}
use cachecoherence.Sockets.Stream.{Sent, takes, Received, gives, write, read}
use cachecoherence.Sockets.Delivery.{sum, concat, IsPositive, IsFull, write-sends, read-chunks}
use cachecoherence.Rdma.Layout.{encode, decode, total, Fit, length-encode, decode-encode}

-- `write(sock, object)`: what has gone out
unfoldable pub write_object : List ℕ → List ℕ → List Sent → Run (List ℕ × List Sent)
unfolding write
write_object widths object answers = write (encode widths object) 0 (total widths) answers

-- `read(sock, object)`: the object as it is overwritten
unfoldable pub read_into : List ℕ → List Received → Run (List ℕ × List Received)
unfolding read
read_into widths answers = do
  (bytes, left) ← read (total widths) answers
  ok (decode widths bytes, left)

-- `read<T>(sock)`: the new object
unfoldable pub read_object : List ℕ → List Received → Run (List ℕ × List Received)
unfolding read_into
read_object widths answers = do (res, left) ← read_into widths answers; ok (res, left)

-- The calls as those of the streams.
write_object-write :
    (widths object : List ℕ) (answers : List Sent)
    → Fit widths object
    → write_object widths object answers
      ≡ write (encode widths object) 0 (length (encode widths object)) answers
unfolding write_object
write_object-write widths object answers fit = rw (length-encode widths object fit) refl

read_object-read :
    (widths : List ℕ) (answers left : List Received) (bytes : List ℕ)
    → read (total widths) answers ≡ ok (bytes, left)
    → read_object widths answers ≡ ok (decode widths bytes, left)
unfolding read_object
read_object-read widths answers left bytes e = ground (arith, e)

-- An object that is written at one end is what the other end reads, however the system splits its
-- bytes on the one side and on the other.
pub read-write_object :
    (widths object sizes : List ℕ) (chunks : List (List ℕ)) (sent : List Sent)
    (received : List Received)
    → Fit widths object
    → total widths < 2 ^ 64
    → All IsPositive sizes
    → sum sizes ≡ total widths
    → All IsFull chunks
    → Returns (write_object widths object (map takes sizes ++ sent)) λ w.
      (concat chunks ≡ w.0
        → read_object widths (map gives chunks ++ received) ≡ ok (object, received))
read-write_object widths object sizes chunks sent received fit small positive whole full =
    let bytes = encode widths object in
    let size : length bytes ≡ total widths = length-encode widths object fit in
    let same : decode widths bytes ≡ object =
      ap (decode widths) (sym (append-nil bytes)) ∙ decode-encode widths object [] fit in
    (
      (bytes, sent),
      write_object-write widths object (map takes sizes ++ sent) fit
          ∙ write-sends bytes sizes sent (omega (arith, size)) positive
              (omega (arith, size, whole)),
      λ joined.
          read_object-read widths (map gives chunks ++ received) received bytes
            (rw size at (read-chunks bytes chunks received (omega (arith, size)) full joined))
          ∙ ap (λ o. ok (o, received)) same,
    )
