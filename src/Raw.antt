-- ===== src/Raw.antt =====
-- internal/repository/models/raw/models.go: the rows of the raw schema. A nil pointer is `none`; a
-- `time.Time` is opaque here.
use jira_connector.Base.{String, Option}
use jira_connector.Base.Int.{ℤ}

-- `title` is Project.Title.
pub record Project : Type 0 where
  pub id : ℤ
  pub title : String

pub record Author : Type 0 where
  pub id : ℤ
  pub name : String

pub record Issue (Time : Type 0) : Type 0 where
  pub id : ℤ
  pub project_id : ℤ
  pub author_id : ℤ
  pub assignee_id : Option ℤ
  pub key : String
  pub summary : Option String
  pub description : Option String
  pub kind : Option String
  pub priority : Option String
  pub status : Option String
  pub created_time : Option Time
  pub closed_time : Option Time
  pub updated_time : Option Time
  pub time_spent : Option ℤ

pub record StatusChange (Time : Type 0) : Type 0 where
  pub issue_id : ℤ
  pub author_id : ℤ
  pub change_time : Time
  pub from_status : Option String
  pub to_status : Option String
