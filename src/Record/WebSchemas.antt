-- ===== src/Record/WebSchemas.antt =====
-- The table of apps/web/app/profiles/recordSchema.ts.
use kall.Common.{String, List, [], ◌∷◌}
use kall.Record.{
  RecordField, field, required, with_options, with_help, proficiency, comma_help, text, textarea,
  date, number, select, checkbox, list,
}

pub record RecordSchema : Type 0 where
  pub singular : String
  pub fields : List RecordField
  pub title_fields : List String

abbrev pub skills_schema : RecordSchema
skills_schema = record {
  singular = "skill";
  fields =
      required (field "name" "Skill" text)
      ∷ with_help "For example: Programming, Leadership." (field "category" "Category" text)
      ∷ with_options proficiency (field "proficiency" "Proficiency" select)
      ∷ field "years_experience" "Years of experience" number
      ∷ field "last_used_year" "Last used (year)" number
      ∷ field "is_primary" "Highlight as a primary skill" checkbox
      ∷ [];
  title_fields = "name" ∷ [];
}

abbrev pub education_schema : RecordSchema
education_schema = record {
  singular = "qualification";
  fields =
      required (field "institution" "Institution" text)
      ∷ field "degree" "Degree" text
      ∷ field "major" "Major" text
      ∷ field "minor" "Minor" text
      ∷ field "graduation_date" "Graduation date" date
      ∷ field "gpa" "GPA" number
      ∷ with_help comma_help (field "honors" "Honors" list)
      ∷ field "country" "Country" text
      ∷ field "state_region" "State or region" text
      ∷ [];
  title_fields = "institution" ∷ [];
}

abbrev pub certifications_schema : RecordSchema
certifications_schema = record {
  singular = "certification";
  fields =
      required (field "name" "Certification" text)
      ∷ required (field "issuing_organization" "Issued by" text)
      ∷ field "verification_url" "Verification link" text
      ∷ field "obtained_on" "Obtained on" date
      ∷ field "expires_on" "Expires on" date
      ∷ field "renewal_required" "Renewal required" checkbox
      ∷ field "reminder_days_before" "Remind me this many days before it expires" number
      ∷ [];
  title_fields = "name" ∷ [];
}

abbrev pub clearances_schema : RecordSchema
clearances_schema = record {
  singular = "clearance";
  fields =
      required (field "clearance_type" "Clearance type" text)
      ∷ required (field "country" "Country" text)
      ∷ required
          (with_options ("active" ∷ "expired" ∷ "inactive" ∷ []) (field "status" "Status" select))
      ∷ field "granted_on" "Granted on" date
      ∷ field "expires_on" "Expires on" date
      ∷ field "polygraph_type" "Polygraph type" text
      ∷ [];
  title_fields = "clearance_type" ∷ [];
}

abbrev pub languages_schema : RecordSchema
languages_schema = record {
  singular = "language";
  fields =
      required (field "name" "Language" text)
      ∷ required (with_options proficiency (field "speaking" "Speaking" select))
      ∷ required (with_options proficiency (field "reading" "Reading" select))
      ∷ required (with_options proficiency (field "writing" "Writing" select))
      ∷ field "years_used" "Years used" number
      ∷ field "certification_name" "Certification" text
      ∷ [];
  title_fields = "name" ∷ [];
}

abbrev pub awards_schema : RecordSchema
awards_schema = record {
  singular = "award";
  fields =
      required (field "name" "Award" text)
      ∷ required (field "issuing_organization" "Issued by" text)
      ∷ field "received_on" "Received on" date
      ∷ field "description" "Description" textarea
      ∷ field "evidence_url" "Evidence link" text
      ∷ [];
  title_fields = "name" ∷ [];
}

abbrev pub publications_schema : RecordSchema
publications_schema = record {
  singular = "publication";
  fields =
      required (field "title" "Title" text)
      ∷ with_help "For example: article, book, whitepaper." (required (field "kind" "Type" text))
      ∷ field "organization_or_venue" "Publisher or venue" text
      ∷ field "published_on" "Published on" date
      ∷ field "url" "Link" text
      ∷ with_help comma_help (field "co_authors" "Co-authors" list)
      ∷ field "description" "Description" textarea
      ∷ [];
  title_fields = "title" ∷ [];
}

abbrev pub patents_schema : RecordSchema
patents_schema = record {
  singular = "patent";
  fields =
      required (field "title" "Title" text)
      ∷ field "patent_number" "Patent number" text
      ∷ field "jurisdiction" "Jurisdiction" text
      ∷ field "status" "Status" text
      ∷ field "filed_on" "Filed on" date
      ∷ field "granted_on" "Granted on" date
      ∷ field "url" "Link" text
      ∷ [];
  title_fields = "title" ∷ [];
}

abbrev pub speaking_schema : RecordSchema
speaking_schema = record {
  singular = "engagement";
  fields =
      required (field "title" "Talk title" text)
      ∷ required (field "event" "Event" text)
      ∷ with_help "For example: keynote, panel, workshop."
          (required (field "engagement_type" "Type" text))
      ∷ field "occurred_on" "Date" date
      ∷ field "url" "Link" text
      ∷ field "description" "Description" textarea
      ∷ [];
  title_fields = "title" ∷ [];
}

abbrev pub memberships_schema : RecordSchema
memberships_schema = record {
  singular = "membership";
  fields =
      required (field "organization" "Organization" text)
      ∷ field "membership_type" "Membership type" text
      ∷ field "member_since" "Member since" date
      ∷ field "expires_on" "Expires on" date
      ∷ with_help comma_help (field "leadership_roles" "Leadership roles" list)
      ∷ [];
  title_fields = "organization" ∷ [];
}

abbrev pub service_schema : RecordSchema
service_schema = record {
  singular = "service record";
  fields =
      required (field "organization" "Organization" text)
      ∷ required (field "role" "Role" text)
      ∷ with_help "For example: board, volunteer, advisory."
          (required (field "service_type" "Type" text))
      ∷ field "started_on" "Started on" date
      ∷ field "ended_on" "Ended on" date
      ∷ with_help comma_help (field "impact_metrics" "Impact metrics" list)
      ∷ field "description" "Description" textarea
      ∷ [];
  title_fields = "organization" ∷ [];
}

abbrev pub references_schema : RecordSchema
references_schema = record {
  singular = "reference";
  fields =
      required (field "name" "Name" text)
      ∷ required (field "relationship_description" "Relationship" text)
      ∷ field "organization" "Organization" text
      ∷ field "title" "Their title" text
      ∷ field "linkedin_url" "LinkedIn" text
      ∷ field "permission_to_contact" "Has agreed to be contacted" checkbox
      ∷ [];
  title_fields = "name" ∷ [];
}

abbrev pub contacts_schema : RecordSchema
contacts_schema = record {
  singular = "contact";
  fields =
      required (field "name" "Name" text)
      ∷ field "company" "Company" text
      ∷ field "title" "Their title" text
      ∷ with_help "e.g. recruiter, alumni, former coworker"
          (field "relationship" "How you know them" text)
      ∷ field "contact_email" "Email" text
      ∷ field "linkedin_url" "LinkedIn" text
      ∷ field "last_contacted_on" "Last contacted" date
      ∷ field "follow_up_on" "Follow up on" date
      ∷ field "contact_notes" "Notes" textarea
      ∷ [];
  title_fields = "name" ∷ [];
}

-- `RECORD_SCHEMAS`, its keys in order
abbrev pub record_schemas : List (String × RecordSchema)
record_schemas =
    ("skills", skills_schema)
    ∷ ("education", education_schema)
    ∷ ("certifications", certifications_schema)
    ∷ ("clearances", clearances_schema)
    ∷ ("languages", languages_schema)
    ∷ ("awards", awards_schema)
    ∷ ("publications", publications_schema)
    ∷ ("patents", patents_schema)
    ∷ ("speaking", speaking_schema)
    ∷ ("memberships", memberships_schema)
    ∷ ("service", service_schema)
    ∷ ("references", references_schema)
    ∷ ("contacts", contacts_schema)
    ∷ []
