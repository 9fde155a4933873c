-- ===== src/Externs/Reading/Assembly.antt =====
-- A message that arrives in pieces: where the reader stands in it after each.
use casycom.Base.{
  ℕ, ◌+◌, ◌-◌, ◌≤◌, ◌<◌, ◌≡◌, refl, ap, sym, ◌∙◌, Bool, true, false, List, [], ◌∷◌, ◌++◌, Option,
  none, some, arith, length, take, drop, leb, ◌==◌, if◌then◌else◌, length-take, length-drop,
  length-append, le→leb,
}
use casycom.Externs.Reading.Position.{
  IsFrame, IsAt, at, block, piece_of, length-block, header_room-at, body_room-at, next_at-at,
  has_message-at,
}
use casycom.Base.Bytes.{memcpy, length-memcpy}
use casycom.Base.Chain.{◌>>=◌}
use casycom.Msg.{Msg}
use casycom.FdIo.Reading.{take-memcpy}
use casycom.Wire.{ExtMsgHeader, header_buf_size}
use casycom.Writer.Pending.{drop_all}
use casycom.Externs.{Extern, Net}
use casycom.Externs.Incoming.{Program}
use casycom.Externs.Reading.{
  Chunk, at_most, scatter, receive, reading, complete_message, take_ancillary, after_counts,
  start_message, fill,
}
use casycom.Externs.Reading.Pieces.{
  take_plus, memcpy_nothing, take_whole, first-piece, second-piece, rest-piece,
}
use casycom.Wire.Strings.{drop-drop}
use casycom.FdIo.{Answer}

module _ (fields : ExtMsgHeader) (names body : List ℕ) (f : IsFrame fields names body) where
  module _ (base : Extern) (h b : ℕ) (m : Msg) (buf : List ℕ)
      (i : IsAt fields names body h b m buf) where
    module _ (c rest : List ℕ)
        (piece : drop h (block fields names) ++ drop b body ≡ c ++ rest) where
      abbrev of_header : List ℕ
      of_header = take (length (block fields names) - h) c

      abbrev of_body : List ℕ
      of_body = drop (length (block fields names) - h) c

      abbrev pub m' : Msg
      m' = record m { body = memcpy m.body b of_body }

      abbrev pub buf' : List ℕ
      buf' = memcpy buf h of_header

      length_piece : length c ≤ length (block fields names) - h + (length body - b)
      length_piece = omega (
        arith,
        ap (λ (t : List ℕ). length t) piece,
        length-append (drop h (block fields names)) (drop b body),
        length-append c rest,
        length-drop h (block fields names),
        length-drop b body,
      )

      abbrev pub h' : ℕ
      h' = h + length of_header

      abbrev pub b' : ℕ
      b' = b + length of_body

      lengths :
          (length of_header + length of_body ≡ length c)
          × (h' ≤ length (block fields names))
          × (b' ≤ length body)
      lengths =
          let l1 = length-take (length (block fields names) - h) c in
          let l2 = length-drop (length (block fields names) - h) c in
          let l3 = length_piece in
          let inside = i.inside.header in
          let inside' = i.inside.body in
          (omega (arith, l1, l2), omega (arith, l1, inside), omega (arith, l2, l3, inside'))

      header_piece : of_header ≡ take (length of_header) (drop h (block fields names))
      header_piece =
          let l = length-drop h (block fields names) in
          rw l at (first-piece (drop h (block fields names)) (drop b body) c rest piece)

      body_piece : of_body ≡ take (length of_body) (drop b body)
      body_piece =
          let l = length-drop h (block fields names) in
          rw l at (second-piece (drop h (block fields names)) (drop b body) c rest piece)

      front-after : take h' buf' ≡ take h' (block fields names)
      front-after =
          let fit = lengths in
          let small = f.fits in
          let len = length-block fields names body f in
          take-memcpy buf of_header h (omega (arith, fit, small, len, i.buffer))
          ∙ (ap (λ (t : List ℕ). t ++ of_header) i.front
              ∙ (ap (λ (t : List ℕ). take h (block fields names) ++ t) header_piece
                  ∙ sym (take_plus h (length of_header) (block fields names))))

      text-after : take b' (m'.body) ≡ take b' body
      text-after =
          let fit = lengths in
          take-memcpy m.body of_body b (omega (arith, fit, i.space))
          ∙ (ap (λ (t : List ℕ). t ++ of_body) i.text
              ∙ (ap (λ (t : List ℕ). take b body ++ t) body_piece
                  ∙ sym (take_plus b (length of_body) body)))

      pub IsAt-after : IsAt fields names body h' b' m' buf'
      IsAt-after =
          let fit = lengths in
          let small = f.fits in
          let len = length-block fields names body f in
          let l1 = length-take (length (block fields names) - h) c in
          record {
            inside = record {
              header = omega (arith, fit);
              body = omega (arith, fit);
              in_order = λ part. omega (arith, l1, fit, part, i.inside.in_order);
            };
            begun = omega (arith, i.begun);
            buffer =
                length-memcpy buf h of_header (omega (arith, fit, small, len, i.buffer)) ∙ i.buffer;
            space = length-memcpy m.body b of_body (omega (arith, fit, i.space)) ∙ i.space;
            size = i.size;
            front = front-after;
            text = text-after;
          }

      scatter-at : scatter c (at base h b m buf) ≡ some (at base h b m' buf')
      unfolding scatter fill
      scatter-at =
          let fit = lengths in
          let small = f.fits in
          let len = length-block fields names body f in
          let t : leb (h + length of_header) header_buf_size ≡ true =
            le→leb _ _ (omega (arith, fit, small, len)) in
          let whole : take (length body - b) of_body ≡ of_body =
            take_whole (length body - b) of_body (omega (arith, fit)) in
          let nothing : drop (length body - b) of_body ≡ [] =
            drop_all (length body - b) of_body (omega (arith, fit)) in
          rw
            (
              (header_room-at fields names body f base h b m buf i),
              (body_room-at fields names body f base h b m buf i),
              (next_at-at fields names body f base h b m buf i),
              t,
              whole,
              nothing,
              memcpy_nothing buf' 0,
            )
            refl

      pub receive-at :
          {U : Type 0} (p : Program) (multiple : List ℕ) (n : Net U)
          → receive p multiple (record { bytes = c; ancillary = [] }) (at base h b m buf) n
            ≡ after_counts p (length of_body == length body - b) 0 (at base h' b' m' buf') n
      unfolding receive take_ancillary
      receive-at p multiple n =
          let fit = lengths in
          let l1 = length-take (length (block fields names) - h) c in
          let hbr : at_most (length (block fields names) - h) (length c) ≡ length of_header =
            ground (arith, l1) in
          let bbr : at_most (length body - b) (length c - length of_header) ≡ length of_body =
            ground (arith, fit, i.inside.body) in
          let next : length c - length of_header - length of_body ≡ 0 = omega (arith, fit) in
          rw
            (
              scatter-at,
              (header_room-at fields names body f base h b m buf i),
              (body_room-at fields names body f base h b m buf i),
              hbr,
              bbr,
              next,
            )
            refl

      pub left-after : drop h' (block fields names) ++ drop b' body ≡ rest
      left-after =
          let l = length-drop h (block fields names) in
          let e : rest
              ≡ drop (length of_header) (drop h (block fields names))
                ++ drop (length of_body) (drop b body) =
            rw l at (rest-piece (drop h (block fields names)) (drop b body) c rest piece) in
          rw
            (
              e,
              drop-drop h (length of_header) (block fields names),
              drop-drop b (length of_body) body,
            )
            refl

      length_left : length c + length rest ≡ length (block fields names) - h + (length body - b)
      length_left = omega (
        arith,
        ap (λ (t : List ℕ). length t) piece,
        length-append (drop h (block fields names)) (drop b body),
        length-append c rest,
        length-drop h (block fields names),
        length-drop b body,
      )

      is_part : 0 < length rest → (length of_body == length body - b) ≡ false
      is_part more =
          let l2 = length-drop (length (block fields names) - h) c in
          let left = length_left in
          let below : length of_body < length body - b =
            grind (arith, l2, left, more, i.inside.in_order, i.inside.header, f.some_body) in
          ground (arith, below)

      is_whole : rest ≡ [] → (length of_body == length body - b) ≡ true
      is_whole none_left =
          let l2 = length-drop (length (block fields names) - h) c in
          let left = length_left in
          let none_more : length rest ≡ 0 = ap (λ (t : List ℕ). length t) none_left in
          let same : length of_body ≡ length body - b =
            omega (arith, l2, left, none_more, i.inside.body) in
          ground (arith, same)

      module _ {U : Type 0} (p : Program) (multiple recvmsg : List ℕ) (calls : List (Answer Chunk))
          (n : Net U) where
        -- While more is to come, the next call goes on where this one has stopped.
        pub reading-part :
            0 < length rest
            → reading p multiple recvmsg (piece_of c ∷ calls) (at base h b m buf) n
              ≡ reading p multiple recvmsg calls (at base h' b' m' buf') n
        unfolding reading after_counts start_message
        reading-part more =
            rw
              (
                (has_message-at fields names body f base h b m buf i),
                receive-at p multiple n,
                is_part more,
              )
              refl

        pub reading-whole :
            rest ≡ []
            → reading p multiple recvmsg (piece_of c ∷ calls) (at base h b m buf) n ≡ (
                complete_message p (at base h' b' m' buf') m' n >>= λ r.
                if r.0 then reading p multiple recvmsg calls r.1 r.2 else some (r.1, r.2))
        unfolding reading after_counts start_message
        reading-whole none_left =
            rw
              (
                (has_message-at fields names body f base h b m buf i),
                receive-at p multiple n,
                is_whole none_left,
              )
              (finish (complete_message p (at base h' b' m' buf') m' n))
          where
            finish :
                (r : Option (Bool × Extern × Net U))
                → ((r >>= λ s. if s.0 then start_message 0 s.1 s.2 else some s) >>= λ r.
                    if r.0 then reading p multiple recvmsg calls r.1 r.2 else some (r.1, r.2))
                  ≡ (r >>= λ r.
                      if r.0 then reading p multiple recvmsg calls r.1 r.2 else some (r.1, r.2))
            finish none = refl
            finish (some (true, o, n')) = refl
            finish (some (false, o, n')) = refl
