-- ===== src/F123/Transformer/Route/Bodies.antt =====
-- The body of a packet as `Route` reads it, and the bodies that the game writes.
use formulatel.Common.{ℕ, ◌*◌, ◌<◌, ◌≡◌, ap, ◌∙◌, subst, List, [], ◌++◌, All, Option, some, length}
use mathlib.Core.List.{append-nil}
use formulatel.Wire.{Layout, Decoder, get_array}
use formulatel.Wire.Arrays.{put_array, get_array-put, length-put_array, Reads}
use formulatel.Wire.Reads.{short_error, binary_read_short, binary_read_whole}
use formulatel.F123.Model.Header.{PacketHeader}
use formulatel.F123.Buffer.{PacketBuffer, BufferError, read_failed, unpack_body}
use formulatel.F123.Transformer.{Go, pure}
use formulatel.F123.Transformer.Route.{with_body}

-- A buffer whose header was read.
abbrev pub body_buffer : PacketHeader → List ℕ → PacketBuffer
body_buffer header bs = record { unread = bs; header = some header }

module _ {A : Type 0} (l : Layout A) (header : PacketHeader) (k : A → Go (Option BufferError)) where
  pub with_body_short :
      (bs : List ℕ)
      → length bs < l.size
      → with_body l (body_buffer header bs) k ≡ pure (some (read_failed (short_error l bs)))
  unfolding with_body unpack_body
  with_body_short bs h = rw (binary_read_short l bs h)

  pub with_body_whole :
      (xs : List ℕ) (a : A) (r : List ℕ)
      → length xs ≡ l.size
      → l.decode xs ≡ (a, [])
      → with_body l (body_buffer header (xs ++ r)) k ≡ k a
  unfolding with_body unpack_body
  with_body_whole xs a r e d = rw (binary_read_whole l xs a r e d)

-- The bodies that hold an entry for each of the 22 cars.
module _ {A : Type 0} {V : A → Type 0} (size : ℕ) (d : Decoder A) (p : A → List ℕ)
    (law : Reads V d p) (width : (a : A) → V a → length (p a) ≡ size) where
  pub with_cars :
      (header : PacketHeader) (k : List A → Go (Option BufferError)) (cars : List A) (r : List ℕ)
      → All V cars
      → length cars ≡ 22
      → with_body
          (record { size = 22 * size; decode = get_array d 22 })
          (body_buffer header (put_array p cars ++ r))
          k
        ≡ k cars
  with_cars header k cars r v n =
      with_body_whole (record { size = 22 * size; decode = get_array d 22 }) header k
        (put_array p cars) cars r
        (length-put_array V p size width cars v ∙ ap (λ (m : ℕ). m * size) n)
        (subst (λ m. get_array d m (put_array p cars) ≡ (cars, [])) n
          (rw (append-nil) at (get_array-put V d p law cars v [])))
