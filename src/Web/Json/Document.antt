-- ===== src/Web/Json/Document.antt =====
-- Documents that the handlers write by nested calls of `JsonWriter`, and the text that stands for them.
use bdtrace.Common.{◌≡◌, refl, ap, ◌∙◌, sym, Bool, true, false, [], ◌∷◌, ◌++◌, if◌then◌else◌, Text}
use bdtrace.Common.Int.{ℤ}
use bdtrace.Common.Literals.{bytes}
use mathlib.Core.List.{append_assoc, append-nil}
use bdtrace.Web.Json.{
  Writer, add, comma, escape, int_text, val_raw, val_text, val_int, val_bool, null_val, key,
  open_with, close_with, begin_object, end_object, begin_array, end_array, pop,
}

-- A JSON value; `number` holds the text of a `double`, as `%.6g` gives it.
mutual
  pub data Value : Type 0 where
    null : Value
    text : Text → Value
    int : ℤ → Value
    number : Text → Value
    bool : Bool → Value
    array : Items → Value
    object : Fields → Value

  pub data Items : Type 0 where
    no_items : Items
    item : Value → Items → Items

  pub data Fields : Type 0 where
    no_fields : Fields
    field : Text → Value → Fields → Fields

-- The calls that write a value.
unfoldable mutual
  pub write : Value → Writer → Writer
  write null w = null_val w
  write (text s) w = val_text s w
  write (int n) w = val_int n w
  write (number t) w = val_raw t w
  write (bool b) w = val_bool b w
  write (array xs) w = end_array (write_items xs (begin_array w))
  write (object fs) w = end_object (write_fields fs (begin_object w))

  pub write_items : Items → Writer → Writer
  write_items no_items w = w
  write_items (item v xs) w = write_items xs (write v w)

  pub write_fields : Fields → Writer → Writer
  write_fields no_fields w = w
  write_fields (field k v fs) w = write_fields fs (write v (key k w))

abbrev pub sep : Bool → Text
sep due = if due then bytes "," else []

-- The text of a value: a comma stands between two members, before none and behind none.
unfoldable mutual
  pub print : Value → Text
  print null = bytes "null"
  print (text s) = escape s
  print (int n) = int_text n
  print (number t) = t
  print (bool b) = if b then bytes "true" else bytes "false"
  print (array xs) = bytes "[" ++ (print_items xs false ++ bytes "]")
  print (object fs) = bytes "{" ++ (print_fields fs false ++ bytes "}")

  pub print_items : Items → Bool → Text
  print_items no_items due = []
  print_items (item v xs) due = sep due ++ (print v ++ print_items xs true)

  pub print_fields : Fields → Bool → Text
  print_fields no_fields due = []
  print_fields (field k v fs) due =
      sep due ++ (escape k ++ (bytes ":" ++ (print v ++ print_fields fs true)))

-- What a complete value does to a writer.
abbrev pub wrote : Text → Writer → Writer
wrote t w = record w { buf = w.buf ++ (sep w.need_comma ++ t); need_comma = true }

-- What the members of an array or of an object do.
WroteItems : Items → Type 0
WroteItems xs =
    (w : Writer)
    → ((write_items xs w).buf ≡ w.buf ++ print_items xs w.need_comma)
      × ((write_items xs w).stack ≡ w.stack)

WroteFields : Fields → Type 0
WroteFields fs =
    (w : Writer)
    → ((write_fields fs w).buf ≡ w.buf ++ print_fields fs w.need_comma)
      × ((write_fields fs w).stack ≡ w.stack)

writer_eq : (u v : Writer) → u.buf ≡ v.buf → u.stack ≡ v.stack → u.need_comma ≡ v.need_comma → u ≡ v
writer_eq u v p q r = λ i. record { buf = p i; stack = q i; need_comma = r i }

-- A comma, and text behind it.
due_comma :
    (due : Bool) (t : Text) (w : Writer)
    → (if due then add (bytes ",") w else w).buf ++ t ≡ w.buf ++ (sep due ++ t)
unfolding add
due_comma true t w = append_assoc w.buf (bytes ",") t
due_comma false t w = refl

due_rest : (due : Bool) (w : Writer) → (if due then add (bytes ",") w else w).stack ≡ w.stack
unfolding add
due_rest true w = refl
due_rest false w = refl

val_raw_lem : (t : Text) (w : Writer) → val_raw t w ≡ wrote t w
unfolding val_raw add comma
val_raw_lem t w =
    writer_eq (val_raw t w) (wrote t w) (due_comma w.need_comma t w) (due_rest w.need_comma w) refl

-- What an opening bracket does, and a key.
opened : Text → Writer → Writer
opened t w = record {
  buf = w.buf ++ (sep w.need_comma ++ t);
  stack = false ∷ w.stack;
  need_comma = false;
}

open_with_lem : (t : Text) (w : Writer) → open_with t w ≡ opened t w
unfolding open_with opened add comma
open_with_lem t w = writer_eq (open_with t w) (opened t w) (due_comma w.need_comma t w) refl refl

keyed : Text → Writer → Writer
keyed k w = record w {
  buf = w.buf ++ (sep w.need_comma ++ (escape k ++ bytes ":"));
  need_comma = false;
}

key_lem : (k : Text) (w : Writer) → key k w ≡ keyed k w
unfolding key keyed add comma
key_lem k w =
    writer_eq (key k w) (keyed k w)
      (append_assoc (comma w).buf (escape k) (bytes ":")
        ∙ due_comma w.need_comma (escape k ++ bytes ":") w)
      (due_rest w.need_comma w) refl

-- Members between two brackets.
closed_lem :
    (t members close : Text) (w u : Writer)
    → u.buf ≡ (opened t w).buf ++ members
    → u.stack ≡ (opened t w).stack
    → close_with close u ≡ wrote (t ++ (members ++ close)) w
unfolding close_with add opened pop
closed_lem t members close w u p q =
    writer_eq (close_with close u) (wrote (t ++ (members ++ close)) w)
      (ap (λ (b : Text). b ++ close) p ∙ simp append_assoc) (ap pop q) refl

mutual
  unfolding write print WroteItems WroteFields val_text val_int val_bool null_val begin_array
      end_array begin_object end_object opened keyed

  write-print : (v : Value) (w : Writer) → write v w ≡ wrote (print v) w
  write-print null w = val_raw_lem (bytes "null") w
  write-print (text s) w = val_raw_lem (escape s) w
  write-print (int n) w = val_raw_lem (int_text n) w
  write-print (number t) w = val_raw_lem t w
  write-print (bool b) w = val_raw_lem (if b then bytes "true" else bytes "false") w
  write-print (array xs) w =
      ap (λ (u : Writer). end_array (write_items xs u)) (open_with_lem (bytes "[") w)
      ∙ closed_lem (bytes "[") (print_items xs false) (bytes "]") w
          (write_items xs (opened (bytes "[") w)) (write-items xs (opened (bytes "[") w)).0
          (write-items xs (opened (bytes "[") w)).1
  write-print (object fs) w =
      ap (λ (u : Writer). end_object (write_fields fs u)) (open_with_lem (bytes "{") w)
      ∙ closed_lem (bytes "{") (print_fields fs false) (bytes "}") w
          (write_fields fs (opened (bytes "{") w)) (write-fields fs (opened (bytes "{") w)).0
          (write-fields fs (opened (bytes "{") w)).1

  write-items : (xs : Items) → WroteItems xs
  write-items no_items w = (sym (append-nil w.buf), refl)
  write-items (item v xs) w =
      let first = write-print v w in
      let rest = write-items xs (wrote (print v) w) in
      (
        ap (λ (u : Writer). (write_items xs u).buf) first ∙ rest.0 ∙ simp append_assoc,
        ap (λ (u : Writer). (write_items xs u).stack) first ∙ rest.1,
      )

  write-fields : (fs : Fields) → WroteFields fs
  write-fields no_fields w = (sym (append-nil w.buf), refl)
  write-fields (field k v fs) w =
      let first = ap (write v) (key_lem k w) ∙ write-print v (keyed k w) in
      let rest = write-fields fs (wrote (print v) (keyed k w)) in
      (
        ap (λ (u : Writer). (write_fields fs u).buf) first ∙ rest.0 ∙ simp append_assoc,
        ap (λ (u : Writer). (write_fields fs u).stack) first ∙ rest.1,
      )

-- The calls that write a value, in whatever state the writer is, add exactly the text of the value,
-- behind a comma if one is due; afterwards a comma is due and the stack is as before. In the text a
-- comma stands between two members of an array or of an object, and nowhere else.
pub write_lem : (v : Value) (w : Writer) → write v w ≡ wrote (print v) w
write_lem v w = write-print v w
