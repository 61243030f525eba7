-- ===== src/Mapper/Examples.antt =====
-- A codec whose times are their texts, and an issue with one status change.
use jira_connector.Base.{◌%◌, ◌^◌, ◌≡◌, String, some, [], ◌∷◌, refl, arith}
use jira_connector.Base.Int.{pos}
use jira_connector.Base.Text.{codes}
use jira_connector.GoError.{ok}
use jira_connector.Jira
use jira_connector.Jira.{IssueFields, History, Changelog, ChangeItem}
use jira_connector.Raw
use jira_connector.Mapper.{Codec, hash_id, raw_issue}
use jira_connector.Mapper.Hash.{poly, hash_id_short, hash_id-collision}

hash_id_short_example : hash_id "ann" ≡ pos (poly 0 (codes "ann") % 2 ^ 31)
hash_id_short_example =
    hash_id_short "ann" (omega arith, (omega arith, (omega arith, tt))) (omega arith)

hash_id-collision_example : hash_id "Aaron" ≡ hash_id "BBron"
hash_id-collision_example =
    hash_id-collision "A" "a" "B" "B" "ron" (omega arith) (omega arith) (omega arith) (omega arith)
      refl

abbrev plain : Codec
plain = record { Time = String; parse = λ layout s. ok s; unmarshal_fields = λ s f. ok f }

abbrev ann : Jira.Author
ann = record { name = "ann"; display_name = "Ann" }

abbrev moved : History
moved = record {
  author = ann;
  created = "2024-01-01";
  items =
      record { field = "status"; from_string = "Open"; to_string = "Done" }
      ∷ record { field = "labels"; from_string = ""; to_string = "x" }
      ∷ [];
}

abbrev issue : Jira.Issue
issue = record {
  key = "AB-1";
  self = "";
  id = "42";
  fields = "{}";
  changelog = some (record { histories = moved ∷ [] });
}

abbrev fields : IssueFields
fields = record {
  summary = "s";
  description = "";
  created = "";
  updated = "";
  resolutiondate = "";
  time_spent = pos 0;
  issue_type = "Bug";
  priority = "";
  status = "Done";
  creator = ann;
  assignee = record { name = ""; display_name = "" };
}

abbrev row : Raw.Issue String
row = raw_issue plain issue (pos 42) (pos 7) fields
