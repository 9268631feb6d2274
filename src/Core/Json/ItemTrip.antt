-- ===== src/Core/Json/ItemTrip.antt =====
-- A work item that is written is read back.
use ticket_bot.Prelude.{
  ◌≡◌, refl, true, Option, none, some, Text, text_eq, List, [], ◌∷◌, non_empty, All,
}
use ticket_bot.Prelude.Outcomes.{Outcome, ok}
use ticket_bot.Predicate.Values.{Fields, get_field}
use ticket_bot.Core.WorkItem.{
  Ambiguity, low, medium, high, ambiguity_value, Comment, Attachment, WorkItem, number_or_null,
}
use ticket_bot.Core.Json.{as_texts}
use ticket_bot.Core.Json.RoundTrip.{as_opt_text-opt_text, texts_of-text_items}
use ticket_bot.Core.Json.WorkItems.{
  Codec, ambiguity_of, if_non_empty, read_all, as_list_of, write_all, as_opt_number,
  comment_to_dict, comment_from_dict, attachment_to_dict, attachment_from_dict, item_to_dict,
  item_from_dict,
}

-- The date of a comment is one that Python writes: a text that is not empty, and is read as itself.
pub record IsDated (codec : Codec) (c : Comment) : Type 0 where
  pub read : (t : Text) → c.created_at ≡ some t → codec.fromisoformat t ≡ ok t
  pub written : (t : Text) → c.created_at ≡ some t → non_empty t ≡ true

module _ (N : Type 0) where
  as_opt_number-number_or_null : (o : Option N) → as_opt_number (some (number_or_null o)) ≡ ok o
  as_opt_number-number_or_null none = refl
  as_opt_number-number_or_null (some n) = refl

  -- Mappings that are read one by one are read as a list.
  read_all-write_all :
      {A : Type 0} (write : A → Fields N) (read : Fields N → Outcome A) (xs : List A)
      → All (λ a. read (write a) ≡ ok a) xs
      → read_all read (write_all write xs) ≡ ok xs
  unfolding read_all write_all
  read_all-write_all write read [] h = refl
  read_all-write_all write read (a ∷ xs) (h, hs) = rw (h, read_all-write_all write read xs hs) refl

  module _ (codec : Codec) where
    if_non_empty-dated :
        (o : Option Text)
        → ((t : Text) → o ≡ some t → codec.fromisoformat t ≡ ok t)
        → ((t : Text) → o ≡ some t → non_empty t ≡ true)
        → if_non_empty codec.fromisoformat o ≡ ok o
    if_non_empty-dated none read written = refl
    if_non_empty-dated (some []) read written = cc (written [] refl)
    if_non_empty-dated (some (c ∷ t)) read written = rw (read (c ∷ t) refl) refl

    comment_from_dict-to_dict :
        (c : Comment) → IsDated codec c → comment_from_dict {N = N} codec (comment_to_dict c) ≡ ok c
    unfolding comment_from_dict comment_to_dict get_field text_eq
    comment_from_dict-to_dict c h =
        rw
          (
            as_opt_text-opt_text N c.created_at,
            if_non_empty-dated c.created_at h.read h.written,
            as_opt_text-opt_text N c.id,
          )
          refl

    module _ (decodes : (bytes : Text) → codec.b64decode (codec.b64encode bytes) ≡ ok bytes) where
      attachment_from_dict-to_dict :
          (a : Attachment) → attachment_from_dict {N = N} codec (attachment_to_dict codec a) ≡ ok a
      unfolding attachment_from_dict attachment_to_dict get_field text_eq
      attachment_from_dict-to_dict a = of_bytes a.bytes
        where
          of_bytes :
              (b : Option Text)
              → attachment_from_dict {N = N} codec
                  (attachment_to_dict codec (record a { bytes = b }))
                ≡ ok (record a { bytes = b })
          of_bytes none = rw (as_opt_text-opt_text N a.path) refl
          of_bytes (some b) = rw (as_opt_text-opt_text N a.path, decodes b) refl

      ambiguity_of-value : (a : Ambiguity) → ambiguity_of (ambiguity_value a) ≡ ok a
      unfolding ambiguity_of ambiguity_value text_eq
      ambiguity_of-value low = refl
      ambiguity_of-value medium = refl
      ambiguity_of-value high = refl

      All-dated :
          (cs : List Comment)
          → All (IsDated codec) cs
          → All (λ c. comment_from_dict {N = N} codec (comment_to_dict c) ≡ ok c) cs
      All-dated [] h = tt
      All-dated (c ∷ cs) (h, hs) = (comment_from_dict-to_dict c h, All-dated cs hs)

      All-attached :
          (files : List Attachment)
          → All (λ a. attachment_from_dict {N = N} codec (attachment_to_dict codec a) ≡ ok a) files
      All-attached [] = tt
      All-attached (a ∷ files) = (attachment_from_dict-to_dict a, All-attached files)

      -- A work item that is written as a mapping is read back as it was, with its comments and
      -- attachments. base64 is taken to be decoded as it was encoded, and the dates of its comments to
      -- be read as they were written.
      pub item_from_dict-to_dict :
          (item : WorkItem N)
          → All (IsDated codec) item.comments
          → item_from_dict codec (item_to_dict codec item) ≡ ok item
      unfolding item_from_dict item_to_dict get_field text_eq as_texts as_list_of
      item_from_dict-to_dict item dated = of_ambiguity item.ambiguity
        where
          of_ambiguity :
              (o : Option Ambiguity)
              → item_from_dict codec (item_to_dict codec (record item { ambiguity = o }))
                ≡ ok (record item { ambiguity = o })
          of_ambiguity none =
              rw
                (
                  as_opt_text-opt_text N item.external_id,
                  as_opt_number-number_or_null item.story_points,
                  texts_of-text_items N item.labels,
                  as_opt_text-opt_text N item.status,
                  as_opt_text-opt_text N item.assignee,
                  as_opt_text-opt_text N item.url,
                  read_all-write_all comment_to_dict (comment_from_dict codec) item.comments
                      (All-dated item.comments dated),
                  read_all-write_all (attachment_to_dict codec) (attachment_from_dict codec)
                      item.attachments (All-attached item.attachments),
                )
                refl
          of_ambiguity (some a) =
              rw
                (
                  as_opt_text-opt_text N item.external_id,
                  as_opt_number-number_or_null item.story_points,
                  texts_of-text_items N item.labels,
                  as_opt_text-opt_text N item.status,
                  as_opt_text-opt_text N item.assignee,
                  as_opt_text-opt_text N item.url,
                  read_all-write_all comment_to_dict (comment_from_dict codec) item.comments
                      (All-dated item.comments dated),
                  read_all-write_all (attachment_to_dict codec) (attachment_from_dict codec)
                      item.attachments (All-attached item.attachments),
                  ambiguity_of-value a,
                )
                refl
