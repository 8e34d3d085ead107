-- ===== src/Redaction/Secrets.antt =====
-- src/gg_relay/redaction/engine.py: what a reader of redacted values can learn.
use gg_proxy.Base.{ℕ, ◌≡◌, refl, Bool, true, ap, String, List, [], ◌∷◌, if◌then◌else◌}
use gg_proxy.Redaction.{
  Key, Value, str, scalar, mapping, listed, tupled, Items, no_items, item, Fields, no_fields, field,
  RedactionEngine, redact_string, is_sensitive, redact_value, redact_items, redact_dict,
  redact_frame, Logged, secret_str, plain_str, other_value, redaction_processor, mask_value,
}

module _ (engine : RedactionEngine) where
  -- Values that differ, at any depth, in what stands under sensitive keys, in texts that the patterns
  -- make equal, and in lists that are tuples.
  mutual
    pub data Alike : Value → Value → Type 0 where
      both_texts :
          (s t : String) → redact_string engine s ≡ redact_string engine t → Alike (str s) (str t)
      both_scalars : (n : ℕ) → Alike (scalar n) (scalar n)
      both_mappings : (d e : Fields) → AlikeFields d e → Alike (mapping d) (mapping e)
      both_lists : (l m : Items) → AlikeItems l m → Alike (listed l) (listed m)
      tuple_list : (l m : Items) → AlikeItems l m → Alike (tupled l) (listed m)
      list_tuple : (l m : Items) → AlikeItems l m → Alike (listed l) (tupled m)
      both_tuples : (l m : Items) → AlikeItems l m → Alike (tupled l) (tupled m)

    pub data AlikeItems : Items → Items → Type 0 where
      at_end : AlikeItems no_items no_items
      in_step :
          (v w : Value) (l m : Items)
          → Alike v w
          → AlikeItems l m
          → AlikeItems (item v l) (item w m)

    pub data AlikeFields : Fields → Fields → Type 0 where
      no_more : AlikeFields no_fields no_fields
      secret :
          (k : Key) (v w : Value) (d e : Fields)
          → is_sensitive engine k ≡ true
          → AlikeFields d e
          → AlikeFields (field k v d) (field k w e)
      shown :
          (k : Key) (v w : Value) (d e : Fields)
          → Alike v w
          → AlikeFields d e
          → AlikeFields (field k v d) (field k w e)

  mutual
    unfolding redact_value redact_items redact_dict

    redact_value-Alike : (v w : Value) → Alike v w → redact_value engine v ≡ redact_value engine w
    redact_value-Alike _ _ (both_texts s t e) = ap str e
    redact_value-Alike _ _ (both_scalars n) = refl
    redact_value-Alike _ _ (both_mappings d e h) = ap mapping (redact_dict-Alike d e h)
    redact_value-Alike _ _ (both_lists l m h) = ap listed (redact_items-Alike l m h)
    redact_value-Alike _ _ (tuple_list l m h) = ap listed (redact_items-Alike l m h)
    redact_value-Alike _ _ (list_tuple l m h) = ap listed (redact_items-Alike l m h)
    redact_value-Alike _ _ (both_tuples l m h) = ap listed (redact_items-Alike l m h)

    redact_items-Alike :
        (l m : Items) → AlikeItems l m → redact_items engine l ≡ redact_items engine m
    redact_items-Alike _ _ at_end = refl
    redact_items-Alike _ _ (in_step v w l m h k) =
        rw (redact_value-Alike v w h) (rw (redact_items-Alike l m k) refl)

    redact_dict-Alike :
        (d e : Fields) → AlikeFields d e → redact_dict engine d ≡ redact_dict engine e
    redact_dict-Alike _ _ no_more = refl
    redact_dict-Alike _ _ (secret k v w d e h more) = rw h (rw (redact_dict-Alike d e more) refl)
    redact_dict-Alike _ _ (shown k v w d e h more) =
        rw (redact_value-Alike v w h) (rw (redact_dict-Alike d e more) refl)

  -- Frames that differ only in what stands under sensitive keys, at any depth, in texts that the patterns
  -- make equal, and in lists that are tuples, are redacted to the same.
  pub redact_frame-AlikeFields :
      (d e : Fields) → AlikeFields d e → redact_frame engine d ≡ redact_frame engine e
  unfolding redact_frame
  redact_frame-AlikeFields d e h = redact_dict-Alike d e h

-- Secrets put in the place of other secrets.
abbrev with_secrets : (String → String) → List (String × Logged) → List (String × Logged)
with_secrets f [] = []
with_secrets f ((k, secret_str s) ∷ events) = (k, secret_str (f s)) ∷ with_secrets f events
with_secrets f ((k, plain_str s) ∷ events) = (k, plain_str s) ∷ with_secrets f events
with_secrets f ((k, other_value n) ∷ events) = (k, other_value n) ∷ with_secrets f events

-- A log line does not depend on the secrets that were logged.
redaction_processor-with_secrets :
    (search : String → Bool) (f : String → String) (events : List (String × Logged))
    → redaction_processor search (with_secrets f events) ≡ redaction_processor search events
unfolding redaction_processor mask_value
redaction_processor-with_secrets search f [] = refl
redaction_processor-with_secrets search f ((k, secret_str s) ∷ events) =
    ap (λ l. (k, plain_str "***") ∷ l) (redaction_processor-with_secrets search f events)
redaction_processor-with_secrets search f ((k, plain_str s) ∷ events) =
    ap (λ l. (k, plain_str (if search s then "***" else s)) ∷ l)
      (redaction_processor-with_secrets search f events)
redaction_processor-with_secrets search f ((k, other_value n) ∷ events) =
    ap (λ l. (k, other_value n) ∷ l) (redaction_processor-with_secrets search f events)
