-- ===== src/Jira.antt =====
-- internal/client/jira/jira.go: the data that the Jira REST API exchanges, and the client in the
-- modules below. JSON texts are `String`; what encoding/json makes of them is a parameter of the
-- code that decodes.
pub mod Client
pub mod Retry
pub mod Fetch
mod Examples
use jira_connector.Base.{String, Bool, Option, List}
use jira_connector.Base.Int.{ℤ}

pub record Author : Type 0 where
  pub name : String
  pub display_name : String

pub record ChangeItem : Type 0 where
  pub field : String
  pub from_string : String
  pub to_string : String

pub record History : Type 0 where
  pub author : Author
  pub created : String
  pub items : List ChangeItem

pub record Changelog : Type 0 where
  pub histories : List History

-- `fields` is the json.RawMessage; a nil `*Changelog` is `none`.
pub record Issue : Type 0 where
  pub key : String
  pub self : String
  pub id : String
  pub fields : String
  pub changelog : Option Changelog

-- The anonymous structs with one field `Name` are that name.
pub record IssueFields : Type 0 where
  pub summary : String
  pub description : String
  pub created : String
  pub updated : String
  pub resolutiondate : String
  pub time_spent : ℤ
  pub issue_type : String
  pub priority : String
  pub status : String
  pub creator : Author
  pub assignee : Author

pub record Project : Type 0 where
  pub id : String
  pub key : String
  pub name : String
  pub self : String

pub record SearchResponse : Type 0 where
  pub issues : List Issue
  pub total : ℤ
  pub start_at : ℤ
  pub max_results : ℤ

pub record ProjectsResponse : Type 0 where
  pub values : List Project
  pub total : ℤ
  pub start_at : ℤ
  pub max_results : ℤ
  pub is_last : Bool
