-- ===== src/Html/Streams.antt =====
-- Writing to any writer, next to writing to a buffer: lemmas on the actions that src/renderer/mod.rs
-- is made of.
pub mod Configs
pub mod Latency
pub mod Results
pub mod Reports
use speed_cli.Base.{
  ◌≡◌, refl, sym, ap, ◌∙◌, subst, ℕ, Bool, true, false, if◌then◌else◌, List, [], ◌∷◌, ◌++◌,
  append_nil, append_assoc,
}
use speed_cli.Html.{
  Text, format, IoResult, ok, err, Writer, vec, Action, and_then, ◌>>◌, done, write,
}
use speed_cli.Html.Space.{Alike, Alike-refl, Alike-trans, Alike-append}

-- What a writer has after it was to append a text: the text, or, when it fails, a part of it.
abbrev pub Appended : {W : Type 0} → (W → Text) → (Text → Type 0) → W → Text → W × IoResult → Type 0
Appended written Fails w t (w', ok) = written w' ≡ written w ++ t
Appended written Fails w t (w', err message) =
    Fails message
    × (part : Text) × (rest : Text) × (part ++ rest ≡ t)
    × (written w' ≡ written w ++ part)

-- The documented behaviour of `write_all`: `written` is what the writer has taken, `Fails` holds of
-- the errors that it gives.
pub record IsWriter {W : Type 0} (out : Writer W) (Fails : Text → Type 0) : Type 0 where
  pub written : W → Text
  pub write_all-Appended : (s : Text) (w : W) → Appended written Fails w s (out.write_all s w)

pub write-vec : (ss : List Text) (v : Text) → write vec ss v ≡ (v ++ format ss, ok)
unfolding write format
write-vec [] v = ap (λ t. (t, ok)) (sym (append_nil v))
write-vec (s ∷ ss) v = write-vec ss (v ++ s) ∙ ap (λ t. (t, ok)) (append_assoc v s (format ss))

module _ {W : Type 0} {out : Writer W} {Fails : Text → Type 0} (law : IsWriter out Fails) where
  -- An action appends a text to the writer, and the same action on a buffer the same text, which is
  -- the given one up to the white space after tags.
  pub record Streams (a : Action W) (c : Action Text) (html : Text) : Type 0 where
    pub text : Text
    pub to_writer : (w : W) → Appended law.written Fails w text (a w)
    pub to_buffer : (v : Text) → c v ≡ (v ++ text, ok)
    pub alike : Alike text html

  longer :
      (s t : Text) (w w' : W) (x : W × IoResult)
      → law.written w' ≡ law.written w ++ s
      → Appended law.written Fails w' t x
      → Appended law.written Fails w (s ++ t) x
  longer s t w w' (w'', ok) e h = h ∙ ap (λ v. v ++ t) e ∙ append_assoc (law.written w) s t
  longer s t w w' (w'', err message) e (fails, part, rest, whole, had) = (
    fails,
    s ++ part,
    rest,
    append_assoc s part rest ∙ ap (λ v. s ++ v) whole,
    had ∙ ap (λ v. v ++ part) e ∙ append_assoc (law.written w) s part,
  )

  and_then-Appended :
      (s t : Text) (w : W) (x : W × IoResult) (next : Action W)
      → Appended law.written Fails w s x
      → ((w' : W) → Appended law.written Fails w' t (next w'))
      → Appended law.written Fails w (s ++ t) (and_then x next)
  and_then-Appended s t w (w', ok) next h k = longer s t w w' (next w') h (k w')
  and_then-Appended s t w (w', err message) next (fails, part, rest, whole, had) k =
      (fails, part, rest ++ t, sym (append_assoc part rest t) ∙ ap (λ v. v ++ t) whole, had)

  pub Streams-then :
      {a b : Action W} {c d : Action Text} {s t : Text}
      → Streams a c s
      → Streams b d t
      → Streams (a >> b) (c >> d) (s ++ t)
  unfolding ◌>>◌
  Streams-then {a} {b} {c} {d} x y = record {
    text = x.text ++ y.text;
    to_writer = λ w. and_then-Appended x.text y.text w (a w) b (x.to_writer w) y.to_writer;
    to_buffer = λ v.
        ap (λ r. and_then r d) (x.to_buffer v)
        ∙ y.to_buffer (v ++ x.text)
        ∙ ap (λ t. (t, ok)) (append_assoc v x.text y.text);
    alike = Alike-append x.alike y.alike;
  }

  pub Streams-done : Streams done done []
  unfolding done
  Streams-done = record {
    text = [];
    to_writer = λ w. sym (append_nil (law.written w));
    to_buffer = λ v. ap (λ t. (t, ok)) (sym (append_nil v));
    alike = Alike-refl [];
  }

  write-Appended :
      (ss : List Text) (w : W) → Appended law.written Fails w (format ss) (write out ss w)
  unfolding write format
  write-Appended [] w = sym (append_nil (law.written w))
  write-Appended (s ∷ ss) w =
      and_then-Appended s (format ss) w (out.write_all s w) (write out ss)
        (law.write_all-Appended s w) (write-Appended ss)

  pub Streams-write :
      (ss : List Text) {html : Text}
      → Alike (format ss) html
      → Streams (write out ss) (write vec ss) html
  Streams-write ss e = record {
    text = format ss;
    to_writer = write-Appended ss;
    to_buffer = write-vec ss;
    alike = e;
  }

  pub Streams-Alike :
      {a : Action W} {c : Action Text} {s t : Text} → Streams a c s → Alike s t → Streams a c t
  Streams-Alike x e = record {
    text = x.text;
    to_writer = x.to_writer;
    to_buffer = x.to_buffer;
    alike = Alike-trans x.alike e;
  }

  pub Streams-same :
      {a : Action W} {c : Action Text} {s t : Text} → Streams a c s → s ≡ t → Streams a c t
  Streams-same {a} {c} x e = subst (Streams a c) e x

  pub Streams-if_done :
      (b : Bool) {a : Action W} {c : Action Text} {s : Text}
      → Streams a c s
      → Streams (if b then a else done) (if b then c else done) (if b then s else [])
  Streams-if_done true h = h
  Streams-if_done false h = Streams-done

  pub Streams-if_not_done :
      (b : Bool) {a : Action W} {c : Action Text} {s : Text}
      → Streams a c s
      → Streams (if b then done else a) (if b then done else c) (if b then [] else s)
  Streams-if_not_done true h = Streams-done
  Streams-if_not_done false h = h
