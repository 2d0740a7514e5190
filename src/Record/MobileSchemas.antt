-- ===== src/Record/MobileSchemas.antt =====
-- The table of apps/mobile/src/lib/recordSchema.ts.
use kall.Common.{String, List, [], ◌∷◌}
use kall.Record.{
  RecordField, field, required, with_options, with_help, sensitive, proficiency, comma_help,
  date_help, text, textarea, date, number, select, checkbox, list,
}

pub record RecordSchema : Type 0 where
  pub label : String
  pub singular : String
  pub description : String
  pub fields : List RecordField
  pub title_fields : List String

abbrev pub employment_schema : RecordSchema
employment_schema = record {
  label = "Employment";
  singular = "role";
  description = "Where you have worked and what you did there.";
  fields =
      required (field "employer" "Employer" text)
      ∷ required (field "job_title" "Job title" text)
      ∷ field "location" "Location" text
      ∷ with_help date_help (field "start_date" "Start date" date)
      ∷ with_help date_help (field "end_date" "End date" date)
      ∷ field "is_current" "Current role" checkbox
      ∷ field "description" "Description" textarea
      ∷ [];
  title_fields = "job_title" ∷ "employer" ∷ [];
}

abbrev pub education_schema : RecordSchema
education_schema = record {
  label = "Education";
  singular = "qualification";
  description = "Degrees, diplomas, and programs.";
  fields =
      required (field "institution" "Institution" text)
      ∷ field "degree" "Degree" text
      ∷ field "major" "Major" text
      ∷ field "minor" "Minor" text
      ∷ with_help date_help (field "graduation_date" "Graduation date" date)
      ∷ field "gpa" "GPA" number
      ∷ with_help comma_help (field "honors" "Honors" list)
      ∷ field "country" "Country" text
      ∷ field "state_region" "State or region" text
      ∷ [];
  title_fields = "institution" ∷ [];
}

abbrev pub skills_schema : RecordSchema
skills_schema = record {
  label = "Skills";
  singular = "skill";
  description = "What you can do, with how long and how well.";
  fields =
      required (field "name" "Skill" text)
      ∷ with_help "For example: Programming, Leadership." (field "category" "Category" text)
      ∷ with_options proficiency (field "proficiency" "Proficiency" select)
      ∷ field "years_experience" "Years of experience" number
      ∷ field "last_used_year" "Last used (year)" number
      ∷ field "is_primary" "Highlight as a primary skill" checkbox
      ∷ [];
  title_fields = "name" ∷ [];
}

abbrev pub certifications_schema : RecordSchema
certifications_schema = record {
  label = "Certifications";
  singular = "certification";
  description = "Licenses and credentials, with renewal reminders.";
  fields =
      required (field "name" "Certification" text)
      ∷ required (field "issuing_organization" "Issued by" text)
      ∷ sensitive (field "credential_id" "Credential ID" text)
      ∷ field "verification_url" "Verification link" text
      ∷ with_help date_help (field "obtained_on" "Obtained on" date)
      ∷ with_help date_help (field "expires_on" "Expires on" date)
      ∷ field "renewal_required" "Renewal required" checkbox
      ∷ field "reminder_days_before" "Remind me this many days before it expires" number
      ∷ [];
  title_fields = "name" ∷ [];
}

abbrev pub languages_schema : RecordSchema
languages_schema = record {
  label = "Languages";
  singular = "language";
  description = "Languages you work in.";
  fields =
      required (field "name" "Language" text)
      ∷ required (with_options proficiency (field "speaking" "Speaking" select))
      ∷ required (with_options proficiency (field "reading" "Reading" select))
      ∷ required (with_options proficiency (field "writing" "Writing" select))
      ∷ field "years_used" "Years used" number
      ∷ field "certification_name" "Certification" text
      ∷ [];
  title_fields = "name" ∷ [];
}

abbrev pub awards_schema : RecordSchema
awards_schema = record {
  label = "Awards";
  singular = "award";
  description = "Recognition you have received.";
  fields =
      required (field "name" "Award" text)
      ∷ required (field "issuing_organization" "Issued by" text)
      ∷ with_help date_help (field "received_on" "Received on" date)
      ∷ field "description" "Description" textarea
      ∷ field "evidence_url" "Evidence link" text
      ∷ [];
  title_fields = "name" ∷ [];
}

abbrev pub publications_schema : RecordSchema
publications_schema = record {
  label = "Publications";
  singular = "publication";
  description = "Articles, books, papers, and talks in print.";
  fields =
      required (field "title" "Title" text)
      ∷ with_help "For example: article, book, whitepaper." (required (field "kind" "Type" text))
      ∷ field "organization_or_venue" "Publisher or venue" text
      ∷ with_help date_help (field "published_on" "Published on" date)
      ∷ field "url" "Link" text
      ∷ with_help comma_help (field "co_authors" "Co-authors" list)
      ∷ field "description" "Description" textarea
      ∷ [];
  title_fields = "title" ∷ [];
}

abbrev pub patents_schema : RecordSchema
patents_schema = record {
  label = "Patents";
  singular = "patent";
  description = "Filed and granted patents.";
  fields =
      required (field "title" "Title" text)
      ∷ field "patent_number" "Patent number" text
      ∷ field "jurisdiction" "Jurisdiction" text
      ∷ field "status" "Status" text
      ∷ with_help date_help (field "filed_on" "Filed on" date)
      ∷ with_help date_help (field "granted_on" "Granted on" date)
      ∷ field "url" "Link" text
      ∷ [];
  title_fields = "title" ∷ [];
}

abbrev pub speaking_schema : RecordSchema
speaking_schema = record {
  label = "Speaking";
  singular = "engagement";
  description = "Keynotes, panels, and workshops.";
  fields =
      required (field "title" "Talk title" text)
      ∷ required (field "event" "Event" text)
      ∷ with_help "For example: keynote, panel, workshop."
          (required (field "engagement_type" "Type" text))
      ∷ with_help date_help (field "occurred_on" "Date" date)
      ∷ field "url" "Link" text
      ∷ field "description" "Description" textarea
      ∷ [];
  title_fields = "title" ∷ [];
}

abbrev pub memberships_schema : RecordSchema
memberships_schema = record {
  label = "Memberships";
  singular = "membership";
  description = "Professional associations and groups.";
  fields =
      required (field "organization" "Organization" text)
      ∷ field "membership_type" "Membership type" text
      ∷ with_help date_help (field "member_since" "Member since" date)
      ∷ with_help date_help (field "expires_on" "Expires on" date)
      ∷ with_help comma_help (field "leadership_roles" "Leadership roles" list)
      ∷ [];
  title_fields = "organization" ∷ [];
}

abbrev pub clearances_schema : RecordSchema
clearances_schema = record {
  label = "Clearances";
  singular = "clearance";
  description = "Security clearances and their status.";
  fields =
      required (field "clearance_type" "Clearance type" text)
      ∷ required (field "country" "Country" text)
      ∷ required
          (with_options ("active" ∷ "expired" ∷ "inactive" ∷ []) (field "status" "Status" select))
      ∷ with_help date_help (field "granted_on" "Granted on" date)
      ∷ with_help date_help (field "expires_on" "Expires on" date)
      ∷ sensitive (field "agency" "Granting agency" text)
      ∷ sensitive (field "sponsor" "Sponsor" text)
      ∷ field "polygraph_type" "Polygraph type" text
      ∷ [];
  title_fields = "clearance_type" ∷ [];
}

abbrev pub service_schema : RecordSchema
service_schema = record {
  label = "Service";
  singular = "service record";
  description = "Board seats, volunteering, and advisory work.";
  fields =
      required (field "organization" "Organization" text)
      ∷ required (field "role" "Role" text)
      ∷ with_help "For example: board, volunteer, advisory."
          (required (field "service_type" "Type" text))
      ∷ with_help date_help (field "started_on" "Started on" date)
      ∷ with_help date_help (field "ended_on" "Ended on" date)
      ∷ with_help comma_help (field "impact_metrics" "Impact metrics" list)
      ∷ field "description" "Description" textarea
      ∷ [];
  title_fields = "organization" ∷ [];
}

abbrev pub references_schema : RecordSchema
references_schema = record {
  label = "References";
  singular = "reference";
  description = "People who will vouch for you. Contact details are encrypted.";
  fields =
      required (field "name" "Name" text)
      ∷ required (field "relationship_description" "Relationship" text)
      ∷ field "organization" "Organization" text
      ∷ field "title" "Their title" text
      ∷ sensitive (field "email" "Email" text)
      ∷ sensitive (field "phone" "Phone" text)
      ∷ field "linkedin_url" "LinkedIn" text
      ∷ field "permission_to_contact" "Has agreed to be contacted" checkbox
      ∷ sensitive (field "notes" "Private notes" textarea)
      ∷ [];
  title_fields = "name" ∷ [];
}

abbrev pub contacts_schema : RecordSchema
contacts_schema = record {
  label = "Contacts";
  singular = "contact";
  description = "Recruiters, alumni, and people worth following up with.";
  fields =
      required (field "name" "Name" text)
      ∷ field "company" "Company" text
      ∷ field "title" "Their title" text
      ∷ with_help "e.g. recruiter, alumni, former coworker"
          (field "relationship" "How you know them" text)
      ∷ field "contact_email" "Email" text
      ∷ field "linkedin_url" "LinkedIn" text
      ∷ with_help date_help (field "last_contacted_on" "Last contacted" date)
      ∷ with_help date_help (field "follow_up_on" "Follow up on" date)
      ∷ field "contact_notes" "Notes" textarea
      ∷ [];
  title_fields = "name" ∷ [];
}

-- `RECORD_SCHEMAS`, its keys in order
abbrev pub record_schemas : List (String × RecordSchema)
record_schemas =
    ("employment", employment_schema)
    ∷ ("education", education_schema)
    ∷ ("skills", skills_schema)
    ∷ ("certifications", certifications_schema)
    ∷ ("languages", languages_schema)
    ∷ ("awards", awards_schema)
    ∷ ("publications", publications_schema)
    ∷ ("patents", patents_schema)
    ∷ ("speaking", speaking_schema)
    ∷ ("memberships", memberships_schema)
    ∷ ("clearances", clearances_schema)
    ∷ ("service", service_schema)
    ∷ ("references", references_schema)
    ∷ ("contacts", contacts_schema)
    ∷ []
