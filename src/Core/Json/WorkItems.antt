-- ===== src/Core/Json/WorkItems.antt =====
-- `to_dict` and `from_dict` of ticketbot/core/workitem.py. base64 and the dates of Python are those of
-- a `Codec`.
use ticket_bot.Prelude.{Option, none, some, Text, codes, List, [], ◌∷◌}
use ticket_bot.Prelude.Outcomes.{Outcome, ok, ◌>>=◌}
use ticket_bot.Predicate.Values.{
  Value, Items, Fields, null, num, str, list, dict, nil, cons, end, field, get_field,
}
use ticket_bot.Core.WorkItem.{
  Ambiguity, low, medium, high, ambiguity_value, Comment, Attachment, WorkItem, number_or_null,
  ambiguity_or_null,
}
use ticket_bot.Core.Json.{
  wrong, by_value, opt_text, text_items, as_needed, as_text_or, as_opt_text, as_texts, as_fields,
}

pub record Codec : Type 0 where
  pub b64encode : Text → Text
  pub b64decode : Text → Outcome Text
  -- The `isoformat()` of the date that `fromisoformat` reads.
  pub fromisoformat : Text → Outcome Text

-- `Ambiguity(t)`
unfoldable pub ambiguity_of : Text → Outcome Ambiguity
unfolding by_value ambiguity_value
ambiguity_of t = by_value ambiguity_value t (low ∷ medium ∷ high ∷ [])

-- `f(t) if t is not None else None`
abbrev pub if_given {ℓ} : {A : Type ℓ} → (Text → Outcome A) → Option Text → Outcome (Option A)
if_given f none = ok none
if_given f (some t) = f t >>= λ a. ok (some a)

-- `f(t) if t else None`
abbrev pub if_non_empty {ℓ} : {A : Type ℓ} → (Text → Outcome A) → Option Text → Outcome (Option A)
if_non_empty f none = ok none
if_non_empty f (some []) = ok none
if_non_empty f (some (c ∷ t)) = f (c ∷ t) >>= λ a. ok (some a)

module _ {N : Type 0} where
  -- A list of mappings, each read by `read`.
  unfoldable pub read_all : {A : Type 0} → (Fields N → Outcome A) → Items N → Outcome (List A)
  read_all read nil = ok []
  read_all read (cons (dict fs) vs) = read fs >>= λ a. read_all read vs >>= λ rest. ok (a ∷ rest)
  read_all read (cons _ vs) = wrong (codes "dict")

  unfoldable pub as_list_of :
      {A : Type 0} → (Fields N → Outcome A) → Option (Value N) → Outcome (List A)
  unfolding read_all
  as_list_of read none = ok []
  as_list_of read (some (list vs)) = read_all read vs
  as_list_of read (some _) = wrong (codes "list")

  unfoldable pub write_all {ℓ} : {A : Type ℓ} → (A → Fields N) → List A → Items N
  write_all write [] = nil
  write_all write (a ∷ rest) = cons (dict (write a)) (write_all write rest)

  abbrev pub as_opt_number : Option (Value N) → Outcome (Option N)
  as_opt_number none = ok none
  as_opt_number (some null) = ok none
  as_opt_number (some (num n)) = ok (some n)
  as_opt_number (some _) = wrong (codes "number")

  -- `_comment_to_dict`
  unfoldable pub comment_to_dict : Comment → Fields N
  comment_to_dict c = field (codes "author") (str c.author) (
      field (codes "body") (str c.body) (
        field (codes "created_at") (opt_text c.created_at)
          (field (codes "id") (opt_text c.id) end)))

  module _ (codec : Codec) where
    -- `_comment_from_dict`
    unfoldable pub comment_from_dict : Fields N → Outcome Comment
    unfolding get_field
    comment_from_dict d = do
      written ← as_opt_text (get_field (codes "created_at") d)
      author ← as_needed (get_field (codes "author") d)
      body ← as_needed (get_field (codes "body") d)
      created_at ← if_non_empty codec.fromisoformat written
      id ← as_opt_text (get_field (codes "id") d)
      ok (record { author = author; body = body; created_at = created_at; id = id })

    abbrev pub encoded : Option Text → Value N
    encoded none = null
    encoded (some bytes) = str (codec.b64encode bytes)

    -- `_attachment_to_dict`
    unfoldable pub attachment_to_dict : Attachment → Fields N
    attachment_to_dict a = field (codes "filename") (str a.filename) (
        field (codes "content_type") (str a.content_type)
          (field (codes "path") (opt_text a.path) (field (codes "data_b64") (encoded a.bytes) end)))

    -- `_attachment_from_dict`
    unfoldable pub attachment_from_dict : Fields N → Outcome Attachment
    unfolding get_field
    attachment_from_dict d = do
      data_b64 ← as_opt_text (get_field (codes "data_b64") d)
      path ← as_opt_text (get_field (codes "path") d)
      filename ← as_needed (get_field (codes "filename") d)
      content_type ←
          as_text_or (codes "application/octet-stream") (get_field (codes "content_type") d)
      bytes ← if_given codec.b64decode data_b64
      ok (record { filename = filename; content_type = content_type; path = path; bytes = bytes })

    -- `WorkItem.to_dict`
    unfoldable pub item_to_dict : WorkItem N → Fields N
    unfolding text_items write_all comment_to_dict attachment_to_dict
    item_to_dict item = field (codes "id") (str item.id) (
        field (codes "title") (str item.title) (
          field (codes "description") (str item.description) (
            field (codes "external_id") (opt_text item.external_id) (
              field (codes "issue_type") (str item.issue_type) (
                field (codes "story_points") (number_or_null item.story_points) (
                  field (codes "labels") (list (text_items item.labels)) (
                    field (codes "acceptance") (str item.acceptance) (
                      field (codes "status") (opt_text item.status) (
                        field (codes "assignee") (opt_text item.assignee) (
                          field (codes "url") (opt_text item.url) (
                            field (codes "comments")
                              (list (write_all comment_to_dict item.comments))
                              (field (codes "attachments")
                                (list (write_all attachment_to_dict item.attachments))
                                (field (codes "ambiguity") (ambiguity_or_null item.ambiguity) (
                                  field (codes "source_ref") (str item.source_ref)
                                    (field (codes "raw") (dict item.raw) end)))))))))))))))

    -- `WorkItem.from_dict`
    unfoldable pub item_from_dict : Fields N → Outcome (WorkItem N)
    unfolding as_texts as_list_of comment_from_dict attachment_from_dict ambiguity_of get_field
    item_from_dict d = do
      ambiguity_text ← as_opt_text (get_field (codes "ambiguity") d)
      id ← as_needed (get_field (codes "id") d)
      title ← as_needed (get_field (codes "title") d)
      description ← as_text_or [] (get_field (codes "description") d)
      external_id ← as_opt_text (get_field (codes "external_id") d)
      issue_type ← as_text_or (codes "Task") (get_field (codes "issue_type") d)
      story_points ← as_opt_number (get_field (codes "story_points") d)
      labels ← as_texts (get_field (codes "labels") d)
      acceptance ← as_text_or [] (get_field (codes "acceptance") d)
      status ← as_opt_text (get_field (codes "status") d)
      assignee ← as_opt_text (get_field (codes "assignee") d)
      url ← as_opt_text (get_field (codes "url") d)
      comments ← as_list_of comment_from_dict (get_field (codes "comments") d)
      attachments ← as_list_of attachment_from_dict (get_field (codes "attachments") d)
      ambiguity ← if_given ambiguity_of ambiguity_text
      source_ref ← as_text_or [] (get_field (codes "source_ref") d)
      raw ← as_fields (get_field (codes "raw") d)
      ok (record {
        id = id;
        title = title;
        description = description;
        external_id = external_id;
        issue_type = issue_type;
        story_points = story_points;
        labels = labels;
        acceptance = acceptance;
        status = status;
        assignee = assignee;
        url = url;
        comments = comments;
        attachments = attachments;
        ambiguity = ambiguity;
        source_ref = source_ref;
        raw = raw;
      })
